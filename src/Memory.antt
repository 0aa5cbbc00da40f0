-- ===== src/Memory.antt =====
-- app/models/memory.py and app/services/memory.py: the row of `memories`, and what the operations
-- of the service act on.
pub mod Table
pub mod Remote
pub mod Create
pub mod Update
pub mod Delete
pub mod Sync
pub mod Search
pub mod Valid
pub mod Retry
pub mod Local
pub mod Owner
pub mod Removal
pub mod History
pub mod Isolation
pub mod Listing
use me.Base.{ℕ, Option, List, Text}
use me.Helpers.{Float}
use me.MemoryClient.{MemoryClientError, Call}

pub data ExternalStatus : Type 0 where
  synced unsynced pending_delete : ExternalStatus

-- A row. UUIDs are numbers, as both Python and PostgreSQL order them; a date is its ordinal, an
-- instant counts microseconds. `external_error` names the class of the error.
pub record Memory : Type 0 where
  pub id : ℕ
  pub user_id : ℕ
  pub text : Text
  pub event_date : ℕ
  pub event_time : Option ℕ
  pub event_tz : Text
  pub location_lat : Option Float
  pub location_lng : Option Float
  pub location_label : Option Text
  pub content_hash : List ℕ
  pub external_id : Option Text
  pub external_status : ExternalStatus
  pub external_synced_at : Option ℕ
  pub external_error : Option MemoryClientError
  pub created_at : ℕ
  pub deleted_at : Option ℕ

-- The committed table, and the requests sent to the memory backend so far, the latest first.
pub record World : Type 0 where
  pub memories : List Memory
  pub calls : List Call

pub data MemorySource : Type 0 where
  supermemory local : MemorySource
