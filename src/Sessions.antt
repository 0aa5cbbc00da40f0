-- ===== src/Sessions.antt =====
-- app/models/session.py, app/models/message.py and app/services/sessions.py: the rows of `sessions`
-- and `messages`, and what the operations of the service act on.
pub mod Table
pub mod Service
pub mod Pages
pub mod Valid
pub mod Complete
pub mod Recent
pub mod Deletion
pub mod Routes
use me.Base.{ℕ, Option, List, Text}
use me.Helpers.{Float}
use me.Stream.{Event}

-- `last_message_at` may be null in the schema, but every statement of the program writes it.
pub record Session : Type 0 where
  pub id : ℕ
  pub user_id : ℕ
  pub title : Option Text
  pub created_at : ℕ
  pub deleted_at : Option ℕ
  pub last_message_at : ℕ

pub data Role : Type 0 where
  user assistant : Role

pub record Message : Type 0 where
  pub id : ℕ
  pub session_id : ℕ
  pub user_id : ℕ
  pub role : Role
  pub content : Text
  pub events : Option (List Event)
  pub parent_message_id : Option ℕ
  pub client_tz : Option Text
  pub location_lat : Option Float
  pub location_lng : Option Float
  pub created_at : ℕ
  pub deleted_at : Option ℕ

-- The committed tables.
pub record Chats : Type 0 where
  pub sessions : List Session
  pub messages : List Message
