-- ===== src/Chat.antt =====
-- `POST /chat` of app/api/chat.py, app/schemas/chat.py, and the end of `stream_turn` of
-- app/api/_chat_stream.py, where the assistant's row is written.
pub mod Recorded
pub mod Retry
pub mod Turns
pub mod History
pub mod Owners
pub mod Framing
pub mod Isolation
use me.Base.{ℕ, true, false, Option, none, some, List, ◌∷◌, ◌++◌, Text, ◌⊎◌, ◌≡◌, refl}
use me.Errors.{Error, Result, ok, err}
use me.Helpers.{Float}
use me.Stream.{Packet, start}
use me.Stream.Steps.{new_assigner}
use me.Stream.State.{new_state}
use me.Stream.Turn.{AssistantRow, run_packets, stream_turn, ToolClass, Replayed, replay_stream}
use me.Agent.{Runtime}
use me.Agent.Prompt.{render_system_prompt}
use me.Agent.Loop.{HistoryTurn, Progress, run_agent_stream}
use me.Sessions.{Session, Message, Chats}
use me.Sessions.Service.{
  get_session, UserMessage, record_user_message, record_assistant_message,
  find_assistant_for_user_message, load_recent_history,
}

pub record ClientLocation : Type 0 where
  pub lat : Float
  pub lng : Float

pub record ChatRequest : Type 0 where
  pub session_id : ℕ
  pub client_message_id : ℕ
  pub message : Text
  pub client_tz : Text
  pub client_location : Option ClientLocation

-- `loc.lat if loc is not None else None`
abbrev pub location_lat : Option ClientLocation → Option Float
location_lat none = none
location_lat (some loc) = some loc.lat

abbrev pub location_lng : Option ClientLocation → Option Float
location_lng none = none
location_lng (some loc) = some loc.lng

-- The arguments of `record_user_message`.
abbrev pub user_message : (user_id : ℕ) → ChatRequest → UserMessage
user_message user_id body = record {
  user_id = user_id;
  client_message_id = body.client_message_id;
  content = body.message;
  client_tz = body.client_tz;
  location_lat = location_lat body.client_location;
  location_lng = location_lng body.client_location;
}

-- What the handler decides: an error, the replay of a stored reply, or a new turn.
pub data ChatStart : Type 0 where
  refused : Error → ChatStart
  replaying : Message → ChatStart
  streaming : Session → List HistoryTurn → ChatStart

-- The handler after the user's message is recorded; `history_turns` is the setting
-- `chat_history_turns`.
unfoldable pub decide_turn : (history_turns : ℕ) → ChatRequest → Session → Chats → ChatStart
decide_turn history_turns body session db =
    elim (find_assistant_for_user_message body.client_message_id db) [
      | some cached ↦ replaying cached
      | none ↦
          streaming session
            (load_recent_history body.session_id body.client_message_id history_turns db)
    ]

unfoldable pub after_record :
    (history_turns : ℕ) → ChatRequest → Session → Result Message × Chats → ChatStart × Chats
unfolding decide_turn
after_record history_turns body session (err e, db) = (refused e, db)
after_record history_turns body session (ok m, db) = (decide_turn history_turns body session db, db)

unfoldable pub begin_turn :
    (history_turns now user_id : ℕ) → ChatRequest → Session → Chats → ChatStart × Chats
unfolding after_record
begin_turn history_turns now user_id body session db =
    after_record history_turns body session
      (record_user_message now (user_message user_id body) session db)

-- `chat`, up to its response. An error other than `SessionNotFound` leaves the handler.
unfoldable pub chat : (history_turns now user_id : ℕ) → ChatRequest → Chats → ChatStart × Chats
unfolding begin_turn
chat history_turns now user_id body db = elim (get_session user_id body.session_id db) [
  | err e ↦ (refused e, db)
  | ok session ↦ begin_turn history_turns now user_id body session db
]

-- The steps of `chat`, for rewriting.
pub chat_refused :
    (history_turns now user_id : ℕ) (body : ChatRequest) (db : Chats) (e : Error)
    → get_session user_id body.session_id db ≡ err e
    → chat history_turns now user_id body db ≡ (refused e, db)
unfolding chat
chat_refused history_turns now user_id body db e h = rw (h, chat) refl

pub chat_found :
    (history_turns now user_id : ℕ) (body : ChatRequest) (session : Session) (db : Chats)
    → get_session user_id body.session_id db ≡ ok session
    → chat history_turns now user_id body db ≡ begin_turn history_turns now user_id body session db
unfolding chat
chat_found history_turns now user_id body session db h = rw (h, chat) refl

-- The end of the stream by the outcome of the insert: after an `IntegrityError` no row is stored.
unfoldable pub after_insert :
    (assistant_message_id : ℕ)
    → ChatRequest
    → Session
    → List Packet
    → Result Message × Chats
    → List Packet × Option Message × Chats
after_insert id body session packets (err e, db) =
    ((stream_turn id session.id body.client_message_id false packets).0, none, db)
after_insert id body session packets (ok m, db) =
    ((stream_turn id session.id body.client_message_id true packets).0, some m, db)

unfoldable pub persist_turn :
    (now user_id assistant_message_id : ℕ)
    → ChatRequest
    → Session
    → List Packet
    → Option AssistantRow
    → Chats
    → List Packet × Option Message × Chats
unfolding after_insert
persist_turn now user_id id body session packets none db =
    ((stream_turn id session.id body.client_message_id true packets).0, none, db)
persist_turn now user_id id body session packets (some row) db =
    after_insert id body session packets (record_assistant_message now user_id row session db)

-- What `stream_turn` sends and stores, once the agent has run: an exception that leaves the agent
-- ends the stream at once.
unfoldable pub finish_turn :
    {Store : Type 0}
    → (now user_id assistant_message_id : ℕ) → ChatRequest
    → Session
    → Progress Store
    → Chats
    → List Packet × Option Message × Chats
unfolding persist_turn
finish_turn now user_id id body session ran db = elim ran.failure [
  | none ↦
      persist_turn now user_id id body session ran.packets
        (stream_turn id session.id body.client_message_id true ran.packets).1 db
  | some e ↦ (start id session.id ∷ (run_packets ran.packets new_assigner new_state).0, none, db)
]

-- The agent's part of `stream_turn`: `now_utc` is the text of the time of the request.
unfoldable pub run_turn :
    {Store Args Res : Type 0}
    → Runtime Store Args Res
    → (localize : Text → Text → Text ⊎ Text) (now_utc : Text) → ChatRequest
    → List HistoryTurn
    → Store
    → Progress Store
run_turn rt localize now_utc body history store =
    run_agent_stream rt body.message (render_system_prompt localize now_utc body.client_tz) history
      store

-- The row as `replay_stream` reads it: its parent is not read.
abbrev pub cached_row : Message → AssistantRow
cached_row m = record {
  id = m.id;
  parent_message_id = elim m.parent_message_id [ none ↦ m.id | some p ↦ p ];
  content = m.content;
  events = m.events;
}

unfoldable pub replay_message : (tool_class_by_name : Text → Option ToolClass) → Message → Replayed
replay_message tool_class_by_name m = replay_stream tool_class_by_name m.session_id (cached_row m)
