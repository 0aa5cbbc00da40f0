-- ===== src/MemoryClient.antt =====
-- app/services/memory_client.py: the `MemoryClient` protocol, its values and its errors.
-- The adapter for the Supermemory SDK is in the child module.
pub mod Supermemory
use me.Base.{ℕ, Option, List, Text}
use me.Helpers.{Float}

-- The classes below `MemoryClientError`; a caller stores and logs the class only.
pub data MemoryClientError : Type 0 where
  auth_error not_found_error rate_limit_error permanent_error transient_error : MemoryClientError

-- What a call returns, or the `MemoryClientError` that it raises.
pub data Reply {ℓ} (A : Type ℓ) : Type ℓ where
  reply : A → Reply A
  raised : MemoryClientError → Reply A

pub record AddResult : Type 0 where
  pub doc_id : Text
  pub status : Text

pub record SearchHit : Type 0 where
  pub doc_id : Text
  pub similarity : Float

-- The metadata envelope: `created_at_unix` is in seconds, and a key that is left out is `none`.
pub record Metadata : Type 0 where
  pub event_date : ℕ
  pub event_tz : Text
  pub created_at_unix : ℕ
  pub location_label : Option Text
  pub location : Option (Float × Float)

-- The backend's answer to each request, at the time of the operation.
pub record MemoryClient : Type 0 where
  pub add :
      (custom_id : ℕ) (content : Text) (container_tags : List Text) → Metadata → Reply AddResult
  pub patch : (doc_id : Text) (content : Option Text) → Metadata → Reply (Unit {0})
  pub delete : (doc_id : Text) → Reply (Unit {0})
  pub search : (q : Text) (container_tag : Text) (limit : ℕ) → Reply (List SearchHit)

-- A request that was sent to the backend.
pub data Call : Type 0 where
  add_call : ℕ → Text → List Text → Metadata → Call
  patch_call : Text → Option Text → Metadata → Call
  delete_call : Text → Call
  search_call : Text → Text → ℕ → Call
