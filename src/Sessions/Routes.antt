-- ===== src/Sessions/Routes.antt =====
-- app/api/sessions.py, with the responses of app/schemas/sessions.py.
pub mod Reading
pub mod Errors
use me.Base.{ℕ, Option, none, some, List, map, Text}
use me.Errors.{Error, Result, ok, err, session_not_found, value_error}
use me.Stream.{Event}
use me.Cursor.{Codec}
use me.Sessions.{Session, Role, Message, Chats}
use me.Sessions.Service.{create_session, get_session, delete_session}
use me.Sessions.Pages.{list_sessions, list_session_messages, desc}

-- The columns that a response shows.
pub record SessionRead : Type 0 where
  pub id : ℕ
  pub title : Option Text
  pub created_at : ℕ
  pub last_message_at : ℕ

pub record MessageRead : Type 0 where
  pub id : ℕ
  pub role : Role
  pub content : Text
  pub events : Option (List Event)
  pub parent_message_id : Option ℕ
  pub client_tz : Option Text
  pub created_at : ℕ

-- `SessionListResponse` and `MessagesPageResponse`
pub record PageResponse (Item : Type 0) : Type 0 where
  pub items : List Item
  pub next_cursor : Option Text

-- How a handler ends: with a response and its status, with an `HTTPException`, or with an exception
-- that no clause takes.
pub data Handled (Body : Type 0) : Type 0 where
  responded : (status : ℕ) → Body → Handled Body
  http_exception : (status : ℕ) → Handled Body
  unhandled : Error → Handled Body

-- `SessionRead.model_validate(row)`, and `SessionListItem`, which has the same fields.
abbrev pub session_read : Session → SessionRead
session_read r = record {
  id = r.id;
  title = r.title;
  created_at = r.created_at;
  last_message_at = r.last_message_at;
}

abbrev pub message_read : Message → MessageRead
message_read m = record {
  id = m.id;
  role = m.role;
  content = m.content;
  events = m.events;
  parent_message_id = m.parent_message_id;
  client_tz = m.client_tz;
  created_at = m.created_at;
}

abbrev pub page_response : {A B : Type 0} → (A → B) → List A × Option Text → PageResponse B
page_response read (rows, next_cursor) = record { items = map read rows; next_cursor = next_cursor }

-- `except SessionNotFound`
unfoldable pub not_found : {Body : Type 0} → Error → Handled Body
not_found session_not_found = http_exception 404
not_found e = unhandled e

-- `except ValueError`
unfoldable pub unprocessable : {Body : Type 0} → Error → Handled Body
unprocessable value_error = http_exception 422
unprocessable e = unhandled e

created : Result Session → Handled SessionRead
created (ok row) = responded 201 (session_read row)
created (err e) = unhandled e

unfoldable pub create_route :
    (now new_id user_id : ℕ) (title : Option Text) → Chats → Handled SessionRead × Chats
unfolding created
create_route now new_id user_id title db =
    let (result, db') = create_session now new_id user_id title db in (created result, db')

unfoldable pub listed :
    {A B : Type 0} → (A → B) → Result (List A × Option Text) → Handled (PageResponse B)
unfolding unprocessable
listed read (ok page) = responded 200 (page_response read page)
listed read (err e) = unprocessable e

unfoldable pub list_items_route :
    Codec
    → (user_id : ℕ) (cursor : Option Text) (limit : ℕ) → Chats
    → Handled (PageResponse SessionRead)
unfolding listed
list_items_route c user_id cursor limit db =
    listed session_read (list_sessions c user_id cursor limit db)

unfoldable pub detail_route : (user_id session_id : ℕ) → Chats → Handled SessionRead
unfolding not_found
detail_route user_id session_id db = elim (get_session user_id session_id db) [
  | ok session ↦ responded 200 (session_read session)
  | err e ↦ not_found e
]

unfoldable pub messages_route :
    Codec
    → (user_id session_id : ℕ) (before : Option Text) (limit : ℕ) → Chats
    → Handled (PageResponse MessageRead)
unfolding listed not_found
messages_route c user_id session_id before limit db = elim (get_session user_id session_id db) [
  | ok session ↦ listed message_read (list_session_messages c session.id before limit desc db)
  | err e ↦ not_found e
]

deleted : Result (Unit {0}) → Handled (Unit {0})
unfolding not_found
deleted (ok _) = responded 204 tt
deleted (err e) = not_found e

unfoldable pub delete_route : (now user_id session_id : ℕ) → Chats → Handled (Unit {0}) × Chats
unfolding deleted
delete_route now user_id session_id db =
    let (result, db') = delete_session now user_id session_id db in (deleted result, db')
