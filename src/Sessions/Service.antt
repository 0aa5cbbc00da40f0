-- ===== src/Sessions/Service.antt =====
-- The operations of app/services/sessions.py, without the pages.
use me.Base.{
  ℕ, ◌*◌, Bool, not, ◌&&◌, Option, none, some, List, ◌∷◌, map, ◌==◌, if◌then◌else◌, Text, codes,
  is_none, is_some, any, find, select, take,
}
use mathlib.Core.List.{reverse}
use me.Errors.{Result, ok, err, pk, integrity_error, no_result_found, session_not_found}
use me.Helpers.{Float, validate_location_pair}
use me.Paging.{Key, newest_first, order_by}
use me.Agent.Loop.{HistoryTurn}
use me.Stream.Turn.{AssistantRow}
use me.Sessions.{Session, Message, Role, user, assistant, Chats}
use me.Sessions.Table.{
  has_session_id, has_message_id, replies_to, check_constraints, index_violation, touch_session,
  bury_session, bury_messages, is_live_in,
}

-- `TITLE_AUTOFILL_CHARS`
abbrev pub title_autofill_chars : ℕ
title_autofill_chars = 60

-- `new_id` is what `gen_random_uuid()` draws.
unfoldable pub create_session :
    (now new_id user_id : ℕ) (title : Option Text) → Chats → Result Session × Chats
create_session now new_id user_id title db =
    let row : Session = record {
      id = new_id;
      user_id = user_id;
      title = title;
      created_at = now;
      deleted_at = none;
      last_message_at = now;
    } in
    if any (has_session_id new_id) db.sessions
    then (err (integrity_error pk), db)
    else (ok row, record db { sessions = row ∷ db.sessions })

-- `Session.id == session_id, Session.user_id == user_id`, and `Session.deleted_at.is_(None)`
abbrev pub is_owned : (user_id session_id : ℕ) → Session → Bool
is_owned user_id session_id r = r.id == session_id && r.user_id == user_id

abbrev pub is_owned_live : (user_id session_id : ℕ) → Session → Bool
is_owned_live user_id session_id r = is_owned user_id session_id r && is_none r.deleted_at

unfoldable pub get_session : (user_id session_id : ℕ) → Chats → Result Session
get_session user_id session_id db = elim (find (is_owned_live user_id session_id) db.sessions) [
  | none ↦ err session_not_found
  | some row ↦ ok row
]

unfoldable pub delete_session : (now user_id session_id : ℕ) → Chats → Result (Unit {0}) × Chats
delete_session now user_id session_id db = elim (find (is_owned user_id session_id) db.sessions) [
  | none ↦ (err session_not_found, db)
  | some row ↦ if is_some row.deleted_at then (ok tt, db) else (
    ok tt,
    record {
      sessions = bury_session session_id now db.sessions;
      messages = bury_messages session_id now db.messages;
    },
  )
]

-- The keyword arguments of `record_user_message` but for the session.
pub record UserMessage : Type 0 where
  pub user_id : ℕ
  pub client_message_id : ℕ
  pub content : Text
  pub client_tz : Text
  pub location_lat : Option Float
  pub location_lng : Option Float

abbrev pub user_row : ℕ → UserMessage → Session → Message
user_row now a session = record {
  id = a.client_message_id;
  session_id = session.id;
  user_id = a.user_id;
  role = user;
  content = a.content;
  events = none;
  parent_message_id = none;
  client_tz = some a.client_tz;
  location_lat = a.location_lat;
  location_lng = a.location_lng;
  created_at = now;
  deleted_at = none;
}

-- `if session.title is None: session.title = content[:TITLE_AUTOFILL_CHARS]`
abbrev pub autofilled : Option Text → Text → Option Text
autofilled none content = some (take title_autofill_chars content)
autofilled (some title) content = none

-- `select(Message).where(Message.id == client_message_id)` and `scalar_one`
unfoldable pub existing_message : ℕ → Chats → Result Message
existing_message id db = elim (find (has_message_id id) db.messages) [
  | none ↦ err no_result_found
  | some m ↦ ok m
]

-- `INSERT … ON CONFLICT (id) DO NOTHING` and what follows it: the checks come first, then the
-- conflict, then the other constraints.
unfoldable pub insert_user_message : ℕ → UserMessage → Session → Chats → Result Message × Chats
unfolding existing_message
insert_user_message now a session db =
    let row : Message = user_row now a session in
    elim (check_constraints row) [
      | some c ↦ (err (integrity_error c), db)
      | none ↦
          if any (has_message_id row.id) db.messages
          then (existing_message row.id db, db)
          else elim (index_violation row db) [
            | some c ↦ (err (integrity_error c), db)
            | none ↦ (
              ok row,
              record {
                sessions =
                    touch_session session.id now (autofilled session.title a.content) db.sessions;
                messages = row ∷ db.messages;
              },
            )
          ]
    ]

unfoldable pub record_user_message : ℕ → UserMessage → Session → Chats → Result Message × Chats
unfolding insert_user_message
record_user_message now a session db = elim (validate_location_pair a.location_lat a.location_lng) [
  | err e ↦ (err e, db)
  | ok _ ↦ insert_user_message now a session db
]

abbrev pub assistant_row : (now user_id : ℕ) → AssistantRow → Session → Message
assistant_row now user_id a session = record {
  id = a.id;
  session_id = session.id;
  user_id = user_id;
  role = assistant;
  content = a.content;
  events = a.events;
  parent_message_id = some a.parent_message_id;
  client_tz = none;
  location_lat = none;
  location_lng = none;
  created_at = now;
  deleted_at = none;
}

-- The only caller supplies the id.
unfoldable pub record_assistant_message :
    (now user_id : ℕ) → AssistantRow → Session → Chats → Result Message × Chats
record_assistant_message now user_id a session db =
    let row : Message = assistant_row now user_id a session in
    elim (check_constraints row) [
      | some c ↦ (err (integrity_error c), db)
      | none ↦
          if any (has_message_id row.id) db.messages
          then (err (integrity_error pk), db)
          else elim (index_violation row db) [
            | some c ↦ (err (integrity_error c), db)
            | none ↦ (
              ok row,
              record {
                sessions = touch_session session.id now none db.sessions;
                messages = row ∷ db.messages;
              },
            )
          ]
    ]

-- The unique index leaves at most one such row.
unfoldable pub find_assistant_for_user_message : (user_message_id : ℕ) → Chats → Option Message
find_assistant_for_user_message id db = find (replies_to (some id)) db.messages

abbrev pub message_key : Message → Key
message_key m = record { at = m.created_at; id = m.id }

unfoldable pub role_text : Role → Text
role_text user = codes "user"
role_text assistant = codes "assistant"

abbrev pub turn_of : Message → HistoryTurn
turn_of m = record { role = role_text m.role; content = m.content }

abbrev pub is_recent : (session_id exclude_message_id : ℕ) → Message → Bool
is_recent session_id exclude m = is_live_in session_id m && not (m.id == exclude)

-- The rows in chronological order.
unfoldable pub recent_rows : (session_id exclude_message_id limit_pairs : ℕ) → Chats → List Message
recent_rows session_id exclude limit_pairs db = reverse (
    take (2 * limit_pairs)
      (order_by message_key newest_first (select (is_recent session_id exclude) db.messages)))

unfoldable pub load_recent_history :
    (session_id exclude_message_id limit_pairs : ℕ) → Chats → List HistoryTurn
unfolding recent_rows
load_recent_history session_id exclude limit_pairs db =
    map turn_of (recent_rows session_id exclude limit_pairs db)
