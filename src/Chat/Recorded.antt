-- ===== src/Chat/Recorded.antt =====
-- What a chat request that goes through has found and stored.
use me.Base.{
  ℕ, ◌≡◌, ◌≢◌, sym, refl, ◌∙◌, ap, Bool, true, Option, none, some, List, [], ◌∷◌, arith, inl, inr,
  is_some, Text, Option-cases, any, find,
}
use me.Errors.{Error, Result, ok, err, Result-cases}
use me.Helpers.{validate_location_pair}
use me.Stream.{Packet}
use me.Stream.State.{events_list}
use me.Stream.Turn.{final_state, AssistantRow}
use me.Agent.Loop.{HistoryTurn}
use me.Sessions.{Session, Message, Chats}
use me.Sessions.Table.{has_message_id, replies_to, check_constraints, touch_session}
use me.Sessions.Service.{
  is_owned_live, get_session, UserMessage, user_row, insert_user_message, record_user_message,
  assistant_row, record_assistant_message, autofilled,
}
use me.Chat.{
  after_record, after_insert, ChatRequest, user_message, ChatStart, refused, streaming, decide_turn,
  begin_turn, chat, chat_refused, chat_found,
}

-- What a request that starts a new turn has found and done.
pub record Started (now user_id : ℕ) (body : ChatRequest) (session : Session) (db db' : Chats)
    : Type 0 where
  pub found : get_session user_id body.session_id db ≡ ok session
  pub recorded :
      (m : Message) × (record_user_message now (user_message user_id body) session db ≡ (ok m, db'))

pub decide_turn-streaming :
    (history_turns : ℕ) (body : ChatRequest) (s session : Session) (history : List HistoryTurn)
    (db db' : Chats)
    → ◌≡◌ {A = ChatStart × Chats}
        (decide_turn history_turns body s db, db)
        (streaming session history, db')
    → (s ≡ session) × (db ≡ db')
unfolding decide_turn
decide_turn-streaming history_turns body s session history db db' h = ground arith

pub after_record-streaming :
    (history_turns : ℕ) (body : ChatRequest) (s session : Session) (history : List HistoryTurn)
    (r : Result Message × Chats) (db' : Chats)
    → after_record history_turns body s r ≡ (streaming session history, db')
    → (s ≡ session) × ((m : Message) × (r ≡ (ok m, db')))
unfolding after_record
after_record-streaming history_turns body s session history (err e, d) db' g = absurd (ground arith)
after_record-streaming history_turns body s session history (ok m, d) db' g =
    let k = decide_turn-streaming history_turns body s session history d db' g in
    (k.0, (m, ap (λ x. (ok m, x)) k.1))

pub chat-streaming :
    (history_turns now user_id : ℕ) (body : ChatRequest) (session : Session)
    (history : List HistoryTurn) (db db' : Chats)
    → chat history_turns now user_id body db ≡ (streaming session history, db')
    → Started now user_id body session db db'
unfolding begin_turn
chat-streaming history_turns now user_id body session history db db' h =
    elim (Result-cases (get_session user_id body.session_id db)) [
      | inr (e, g) ↦
          absurd
            (refused-streaming e (sym (chat_refused history_turns now user_id body db e g) ∙ h))
      | inl (s, g) ↦
          let k =
            after_record-streaming history_turns body s session history
              (record_user_message now (user_message user_id body) s db) db'
              (sym (chat_found history_turns now user_id body s db g) ∙ h) in
          record { found = g ∙ ap ok k.0; recorded = (k.1.0, rw (← k.0) k.1.1) }
    ]
  where
    refused-streaming :
        (e : Error) → ◌≢◌ {A = ChatStart × Chats} (refused e, db) (streaming session history, db')
    refused-streaming e x = ground arith

-- What a stored message has been given.
pub record Recorded (a : UserMessage) (session : Session) (db db' : Chats) : Type 0 where
  pub located : (u : Unit {0}) × (validate_location_pair a.location_lat a.location_lng ≡ ok u)
  pub there : any (has_message_id a.client_message_id) db'.messages ≡ true

pub record_user_message-ok :
    (now : ℕ) (a : UserMessage) (session : Session) (m : Message) (db db' : Chats)
    → record_user_message now a session db ≡ (ok m, db')
    → Recorded a session db db'
unfolding record_user_message insert_user_message any
record_user_message-ok now a session m db db' h = ground arith

pub checks_of_located :
    (now : ℕ) (a : UserMessage) (session : Session) (u : Unit {0})
    → validate_location_pair a.location_lat a.location_lng ≡ ok u
    → check_constraints (user_row now a session) ≡ none
unfolding validate_location_pair check_constraints
checks_of_located now a session u h = ground arith

-- The row that is stored stands first in the table, and the session is still found.
pub record Stored (body : ChatRequest) (session : Session) (packets : List Packet) (m : Message)
    (db db' : Chats) : Type 0 where
  pub answers : replies_to (some body.client_message_id) m ≡ true
  pub cached : m.events ≡ events_list (final_state packets).events
  pub table : db'.messages ≡ m ∷ db.messages
  pub now : ℕ
  pub sessions : db'.sessions ≡ touch_session session.id now none db.sessions

pub record_assistant_message-ok :
    (now user_id : ℕ) (a : AssistantRow) (session : Session) (m : Message) (db db' : Chats)
    → record_assistant_message now user_id a session db ≡ (ok m, db')
    → (m ≡ assistant_row now user_id a session)
      × (db' ≡ record {
        sessions = touch_session session.id now none db.sessions;
        messages = assistant_row now user_id a session ∷ db.messages;
      })
unfolding record_assistant_message
record_assistant_message-ok now user_id a session m db db' h = ground arith

pub after_insert-some :
    (id : ℕ) (body : ChatRequest) (session : Session) (packets wire : List Packet) (m : Message)
    (r : Result Message × Chats) (db' : Chats)
    → after_insert id body session packets r ≡ (wire, some m, db')
    → r ≡ (ok m, db')
unfolding after_insert
after_insert-some id body session packets wire m (err e, d) db' h = absurd (ground arith)
after_insert-some id body session packets wire m (ok x, d) db' h = ground arith

pub find-any :
    {A : Type 0} (p : A → Bool) (xs : List A) → any p xs ≡ true → is_some (find p xs) ≡ true
unfolding any find
find-any p [] h = absurd (ground arith)
find-any p (x ∷ xs) h = ground (arith, find-any p xs)

pub find-touch_session :
    (user_id session_id id now : ℕ) (title : Option Text) (rows : List Session)
    → is_some (find (is_owned_live user_id session_id) (touch_session id now title rows))
      ≡ is_some (find (is_owned_live user_id session_id) rows)
unfolding find touch_session
find-touch_session user_id session_id id now title [] = refl
find-touch_session user_id session_id id now title (r ∷ rows) =
    ground (arith, find-touch_session user_id session_id id now title rows)

-- Recording a message keeps every session that a user can open.
pub record_user_message-sessions :
    (now : ℕ) (a : UserMessage) (session : Session) (db : Chats) (user_id session_id : ℕ)
    → is_some
        (find (is_owned_live user_id session_id) (record_user_message now a session db).1.sessions)
      ≡ is_some (find (is_owned_live user_id session_id) db.sessions)
unfolding record_user_message insert_user_message
record_user_message-sessions now a session db user_id session_id =
    let kept =
      find-touch_session user_id session_id session.id now (autofilled session.title a.content)
        db.sessions in
    ground arith

pub get_session-found :
    (user_id session_id : ℕ) (db : Chats)
    → is_some (find (is_owned_live user_id session_id) db.sessions) ≡ true
    → (s : Session) × (get_session user_id session_id db ≡ ok s)
unfolding get_session
get_session-found user_id session_id db h =
    elim (Option-cases (find (is_owned_live user_id session_id) db.sessions)) [
      | inl e ↦ absurd (ground arith)
      | inr (s, e) ↦ (s, rw (e, get_session) refl)
    ]

pub found-get_session :
    (user_id session_id : ℕ) (db : Chats) (s : Session)
    → get_session user_id session_id db ≡ ok s
    → is_some (find (is_owned_live user_id session_id) db.sessions) ≡ true
unfolding get_session
found-get_session user_id session_id db s h = ground arith
