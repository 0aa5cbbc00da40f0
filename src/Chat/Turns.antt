-- ===== src/Chat/Turns.antt =====
-- What the two halves of `POST /chat` of app/api/chat.py do to the tables.
use me.Base.{
  ℕ, ◌≡◌, refl, true, Option, none, some, List, [], ◌∷◌, ◌++◌, arith, inl, inr, All, any, find,
  Option-cases, Text,
}
use me.Errors.{Result, ok, err, Result-cases}
use me.Stream.{Packet}
use me.Stream.Turn.{AssistantRow, stream_turn}
use me.Agent.Loop.{Progress}
use me.Sessions.{Session, Message, Chats}
use me.Sessions.Service.{
  create_session, delete_session, get_session, is_owned_live, UserMessage, record_user_message,
  insert_user_message, autofilled, record_assistant_message, find_assistant_for_user_message,
}
use me.Sessions.Valid.{holds, IsChats, any-touch_session, any-bury_session}
use me.Sessions.Valid.Turns.{record_user_message-IsChats, record_assistant_message-IsChats}
use me.Chat.{
  ChatRequest, ChatStart, refused, replaying, streaming, user_message, decide_turn, after_record,
  begin_turn, chat, chat_found, chat_refused, after_insert, persist_turn, finish_turn,
}

-- A turn that streams.
pub record RunningTurn : Type 0 where
  pub user_id : ℕ
  pub body : ChatRequest
  pub session : Session

-- The turns that a request adds.
abbrev pub started : ℕ → ChatRequest → ChatStart → List RunningTurn
started user_id body (streaming session history) =
    record { user_id = user_id; body = body; session = session } ∷ []
started user_id body (replaying m) = []
started user_id body (refused e) = []

-- The session of a running turn is the user's.
abbrev pub IsRunning : Chats → RunningTurn → Type 0
IsRunning db t = any (holds t.session.id t.user_id) db.sessions ≡ true

-- No operation takes a session from its user.
abbrev pub KeepsOwners : Chats → Chats → Type 0
KeepsOwners old new =
    (s u : ℕ) → any (holds s u) old.sessions ≡ true → any (holds s u) new.sessions ≡ true

pub create-KeepsOwners :
    (now new_id user_id : ℕ) (title : Option Text) (db : Chats)
    → KeepsOwners db (create_session now new_id user_id title db).1
unfolding create_session any
create-KeepsOwners now new_id user_id title db s u h = ground arith

pub delete-KeepsOwners :
    (now user_id session_id : ℕ) (db : Chats)
    → KeepsOwners db (delete_session now user_id session_id db).1
unfolding delete_session
delete-KeepsOwners now user_id session_id db s u h =
    let same = any-bury_session (holds s u) session_id now db.sessions (λ r. refl) in ground arith

record-KeepsOwners :
    (now : ℕ) (a : UserMessage) (session : Session) (db : Chats)
    → KeepsOwners db (record_user_message now a session db).1
unfolding record_user_message insert_user_message
record-KeepsOwners now a session db s u h =
    let same =
      any-touch_session (holds s u) session.id now (autofilled session.title a.content) db.sessions
        (λ r. refl) in
    ground arith

assistant-KeepsOwners :
    (now user_id : ℕ) (a : AssistantRow) (session : Session) (db : Chats)
    → KeepsOwners db (record_assistant_message now user_id a session db).1
unfolding record_assistant_message
assistant-KeepsOwners now user_id a session db s u h =
    let same = any-touch_session (holds s u) session.id now none db.sessions (λ r. refl) in
    ground arith

pub after_record-db :
    (history_turns : ℕ) (body : ChatRequest) (session : Session) (r : Result Message × Chats)
    → (after_record history_turns body session r).1 ≡ r.1
unfolding after_record
after_record-db history_turns body session (ok m, db) = refl
after_record-db history_turns body session (err e, db) = refl

after_record-session :
    (history_turns user_id : ℕ) (body : ChatRequest) (session : Session)
    (r : Result Message × Chats) (db : Chats)
    → any (holds session.id user_id) db.sessions ≡ true
    → All (IsRunning db) (started user_id body (after_record history_turns body session r).0)
unfolding after_record
after_record-session history_turns user_id body session (err e, d) db h = tt
after_record-session history_turns user_id body session (ok m, d) db h =
    elim (Option-cases (find_assistant_for_user_message body.client_message_id d)) [
      | inl e ↦ rw (e, decide_turn) (h, tt)
      | inr (x, e) ↦ rw (e, decide_turn) tt
    ]

find-holds :
    (u sid : ℕ) (rows : List Session) (x : Session)
    → find (is_owned_live u sid) rows ≡ some x
    → any (holds x.id u) rows ≡ true
unfolding find any
find-holds u sid [] x h = absurd (ground arith)
find-holds u sid (r ∷ rows) x h = ground (arith, find-holds u sid rows x)

pub get_session-holds :
    (u sid : ℕ) (db : Chats) (x : Session)
    → get_session u sid db ≡ ok x
    → any (holds x.id u) db.sessions ≡ true
unfolding get_session
get_session-holds u sid db x h = elim (Option-cases (find (is_owned_live u sid) db.sessions)) [
  | inl e ↦ absurd (ground arith)
  | inr (y, e) ↦ let same : y ≡ x = ground arith in rw (← same) (find-holds u sid db.sessions y e)
]

-- What the handler of a chat request does to the tables.
pub record Begun (user_id : ℕ) (body : ChatRequest) (db : Chats) (r : ChatStart × Chats)
    : Type 0 where
  pub tables : IsChats r.1
  pub owners : KeepsOwners db r.1
  pub turns : All (IsRunning r.1) (started user_id body r.0)

pub chat-Begun :
    (history_turns now user_id : ℕ) (body : ChatRequest) (db : Chats)
    → IsChats db
    → Begun user_id body db (chat history_turns now user_id body db)
unfolding begin_turn
chat-Begun history_turns now user_id body db h =
    elim (Result-cases (get_session user_id body.session_id db)) [
      | inr (e, g) ↦
          rw (chat_refused history_turns now user_id body db e g)
            (record { tables = h; owners = λ s u k. k; turns = tt })
      | inl (session, g) ↦
          let r = record_user_message now (user_message user_id body) session db in
          let own = get_session-holds user_id body.session_id db session g in
          let same = after_record-db history_turns body session r in
          let keeps = record-KeepsOwners now (user_message user_id body) session db in
          rw (chat_found history_turns now user_id body session db g) (record {
            tables =
                rw same
                  (record_user_message-IsChats now (user_message user_id body) session db h own);
            owners = rw same keeps;
            turns =
                after_record-session history_turns user_id body session r
                  (after_record history_turns body session r).1
                  (rw same (keeps session.id user_id own));
          })
    ]

pub after_insert-db :
    (id : ℕ) (body : ChatRequest) (session : Session) (packets : List Packet)
    (r : Result Message × Chats)
    → (after_insert id body session packets r).2 ≡ r.1
unfolding after_insert
after_insert-db id body session packets (ok m, db) = refl
after_insert-db id body session packets (err e, db) = refl

-- What the end of a turn does to them.
pub record Finished (db db' : Chats) : Type 0 where
  pub tables : IsChats db'
  pub owners : KeepsOwners db db'

unchanged : (db : Chats) → IsChats db → Finished db db
unchanged db h = record { tables = h; owners = λ s u k. k }

persist_turn-Finished :
    (now user_id id : ℕ) (body : ChatRequest) (session : Session) (packets : List Packet)
    (o : Option AssistantRow) (db : Chats)
    → IsChats db
    → any (holds session.id user_id) db.sessions ≡ true
    → Finished db (persist_turn now user_id id body session packets o db).2
unfolding persist_turn
persist_turn-Finished now user_id id body session packets none db h own = unchanged db h
persist_turn-Finished now user_id id body session packets (some row) db h own =
    rw
      (after_insert-db id body session packets
        (record_assistant_message now user_id row session db))
      (record {
        tables = record_assistant_message-IsChats now user_id row session db h own;
        owners = assistant-KeepsOwners now user_id row session db;
      })

pub finish_turn-Finished :
    {Store : Type 0} (now user_id id : ℕ) (body : ChatRequest) (session : Session)
    (ran : Progress Store) (db : Chats)
    → IsChats db
    → any (holds session.id user_id) db.sessions ≡ true
    → Finished db (finish_turn now user_id id body session ran db).2
unfolding finish_turn
finish_turn-Finished now user_id id body session ran db h own = elim (Option-cases ran.failure) [
  | inr (e, f) ↦ rw (f, finish_turn) (unchanged db h)
  | inl f ↦
      rw (f, finish_turn)
        (persist_turn-Finished now user_id id body session ran.packets
          (stream_turn id session.id body.client_message_id true ran.packets).1 db h own)
]

-- The running turns keep their sessions.
pub turns_kept :
    (old new : Chats) (ts : List RunningTurn)
    → KeepsOwners old new
    → All (IsRunning old) ts
    → All (IsRunning new) ts
turns_kept old new [] k h = tt
turns_kept old new (t ∷ ts) k h = (k t.session.id t.user_id h.0, turns_kept old new ts k h.1)

pub All-append :
    {A : Type 0} (P : A → Type 0) (xs ys : List A) → All P xs → All P ys → All P (xs ++ ys)
All-append P [] ys h k = k
All-append P (x ∷ xs) ys h k = (h.0, All-append P xs ys h.1 k)

pub All-without :
    {A : Type 0} (P : A → Type 0) (xs ys : List A) (y : A)
    → All P (xs ++ y ∷ ys)
    → P y × All P (xs ++ ys)
All-without P [] ys y h = h
All-without P (x ∷ xs) ys y h = let r = All-without P xs ys y h.1 in (r.0, (h.0, r.1))
