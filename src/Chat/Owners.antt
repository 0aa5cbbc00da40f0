-- ===== src/Chat/Owners.antt =====
-- The statements of app/services/sessions.py leave the rows of other users.
use me.Base.{
  ℕ, ◌≡◌, ◌≢◌, refl, Bool, true, false, ◌==◌, ==_iff, Option, none, some, List, [], ◌∷◌, arith, inl,
  inr, All, any, find, select, Bool-cases, Option-cases, Text,
}
use me.Stream.Turn.{AssistantRow}
use me.Sessions.{Session, Message, Chats}
use me.Sessions.Table.{has_session_id, touch_session, bury_session, bury_messages, is_live_in}
use me.Sessions.Service.{
  create_session, delete_session, is_owned, UserMessage, record_user_message, insert_user_message,
  autofilled, record_assistant_message,
}
use me.Sessions.Valid.{holds, UniqueSessions, IsMessage, IsChats}

abbrev pub session_of : ℕ → Session → Bool
session_of v r = r.user_id == v

abbrev pub message_of : ℕ → Message → Bool
message_of v m = m.user_id == v

-- What a user has in the tables.
abbrev pub rows_of : ℕ → Chats → Chats
rows_of v db = record {
  sessions = select (session_of v) db.sessions;
  messages = select (message_of v) db.messages;
}

no_owner :
    (id u : ℕ) (rows : List Session)
    → any (has_session_id id) rows ≡ false
    → any (holds id u) rows ≡ false
unfolding any
no_owner id u [] h = refl
no_owner id u (r ∷ rows) h = ground (arith, no_owner id u rows)

no_more_ids :
    (r : Session) (id : ℕ) (rows : List Session)
    → has_session_id id r ≡ true
    → any (has_session_id r.id) rows ≡ false
    → any (has_session_id id) rows ≡ false
no_more_ids r id rows e h = rw (← (==_iff r.id id).0 e) h

-- A session has one owner.
one_owner :
    (id u v : ℕ) (rows : List Session)
    → UniqueSessions rows
    → any (holds id u) rows ≡ true
    → any (holds id v) rows ≡ true
    → u ≡ v
unfolding any
one_owner id u v [] q h k = absurd (ground arith)
one_owner id u v (r ∷ rows) q h k = elim (Bool-cases (has_session_id id r)) [
  | inl e ↦
      let a = no_owner id u rows (no_more_ids r id rows e q.0) in
      let b = no_owner id v rows (no_more_ids r id rows e q.0) in ground arith
  | inr e ↦ one_owner id u v rows q.1 (ground arith) (ground arith)
]

-- A change of a session of another user.
touched-others :
    (v u id now : ℕ) (title : Option Text) (rows : List Session)
    → v ≢ u
    → UniqueSessions rows
    → any (holds id u) rows ≡ true
    → select (session_of v) (touch_session id now title rows) ≡ select (session_of v) rows
unfolding select touch_session any
touched-others v u id now title [] n q h = refl
touched-others v u id now title (r ∷ rows) n q h = elim (Bool-cases (has_session_id id r)) [
  | inl e ↦ let a = no_owner id u rows (no_more_ids r id rows e q.0) in ground arith
  | inr e ↦ let rest = touched-others v u id now title rows n q.1 (ground arith) in ground arith
]

buried-others :
    (v u id now : ℕ) (rows : List Session)
    → v ≢ u
    → UniqueSessions rows
    → any (holds id u) rows ≡ true
    → select (session_of v) (bury_session id now rows) ≡ select (session_of v) rows
unfolding select bury_session any
buried-others v u id now [] n q h = refl
buried-others v u id now (r ∷ rows) n q h = elim (Bool-cases (has_session_id id r)) [
  | inl e ↦ let a = no_owner id u rows (no_more_ids r id rows e q.0) in ground arith
  | inr e ↦ let rest = buried-others v u id now rows n q.1 (ground arith) in ground arith
]

buried_messages-others :
    (v u id now : ℕ) (db : Chats) (ms : List Message)
    → v ≢ u
    → UniqueSessions db.sessions
    → any (holds id u) db.sessions ≡ true
    → All (IsMessage db.sessions db.messages) ms
    → select (message_of v) (bury_messages id now ms) ≡ select (message_of v) ms
unfolding select bury_messages
buried_messages-others v u id now db [] n q h t = refl
buried_messages-others v u id now db (m ∷ ms) n q h t =
    let rest = buried_messages-others v u id now db ms n q h t.1 in
    elim (Bool-cases (is_live_in id m)) [
      | inr e ↦ ground arith
      | inl e ↦
          let same : m.session_id ≡ id = ground arith in
          let owner : m.user_id ≡ u =
            one_owner id m.user_id u db.sessions q (rw same at t.0.owned) h in
          ground arith
    ]

find-owned-holds :
    (u id : ℕ) (rows : List Session) (x : Session)
    → find (is_owned u id) rows ≡ some x
    → any (holds id u) rows ≡ true
unfolding find any
find-owned-holds u id [] x h = absurd (ground arith)
find-owned-holds u id (r ∷ rows) x h = ground (arith, find-owned-holds u id rows x)

pub create_session-others :
    (v now new_id u : ℕ) (title : Option Text) (db : Chats)
    → v ≢ u
    → rows_of v (create_session now new_id u title db).1 ≡ rows_of v db
unfolding create_session select
create_session-others v now new_id u title db n = ground arith

pub delete_session-others :
    (v now u id : ℕ) (db : Chats)
    → v ≢ u
    → IsChats db
    → rows_of v (delete_session now u id db).1 ≡ rows_of v db
unfolding delete_session
delete_session-others v now u id db n t = elim (Option-cases (find (is_owned u id) db.sessions)) [
  | inl e ↦ rw (e, delete_session) refl
  | inr (x, e) ↦
      let own = find-owned-holds u id db.sessions x e in
      let a = buried-others v u id now db.sessions n t.unique_sessions own in
      let b =
        buried_messages-others v u id now db db.messages n t.unique_sessions own t.each_message in
      ground arith
]

pub record_user-others :
    (v now : ℕ) (a : UserMessage) (session : Session) (db : Chats)
    → v ≢ a.user_id
    → IsChats db
    → any (holds session.id a.user_id) db.sessions ≡ true
    → rows_of v (record_user_message now a session db).1 ≡ rows_of v db
unfolding record_user_message insert_user_message select
record_user-others v now a session db n t own =
    let same =
      touched-others v a.user_id session.id now (autofilled session.title a.content) db.sessions n
        t.unique_sessions own in
    ground arith

pub record_assistant-others :
    (v now u : ℕ) (a : AssistantRow) (session : Session) (db : Chats)
    → v ≢ u
    → IsChats db
    → any (holds session.id u) db.sessions ≡ true
    → rows_of v (record_assistant_message now u a session db).1 ≡ rows_of v db
unfolding record_assistant_message select
record_assistant-others v now u a session db n t own =
    let same = touched-others v u session.id now none db.sessions n t.unique_sessions own in
    ground arith
