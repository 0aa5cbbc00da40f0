-- ===== src/Chat/Isolation.antt =====
-- No request of a user changes a session or a message of another.
use me.Base.{
  ℕ, ◌≡◌, ◌≢◌, refl, ap, ◌∙◌, true, Option, none, some, List, inl, inr, any, Option-cases,
}
use me.Errors.{Result-cases}
use me.Stream.{Packet}
use me.Stream.Turn.{AssistantRow, stream_turn}
use me.Agent.Loop.{Progress}
use me.Sessions.{Session, Chats}
use me.Sessions.Service.{get_session, record_user_message, record_assistant_message}
use me.Sessions.Valid.{holds, IsChats}
use me.Chat.{
  ChatRequest, ChatStart, user_message, begin_turn, chat, chat_found, chat_refused, persist_turn,
  finish_turn,
}
use me.Chat.Turns.{IsRunning, get_session-holds, after_record-db, after_insert-db, All-without}
use me.Chat.History.{Server, Step, create, delete, begin, finish, IsServer}
use me.Chat.Owners.{
  rows_of, create_session-others, delete_session-others, record_user-others,
  record_assistant-others,
}

chat-others :
    (history_turns v now u : ℕ) (body : ChatRequest) (db : Chats)
    → v ≢ u
    → IsChats db
    → rows_of v (chat history_turns now u body db).1 ≡ rows_of v db
unfolding begin_turn
chat-others history_turns v now u body db n t =
    elim (Result-cases (get_session u body.session_id db)) [
      | inr (e, g) ↦
          ap (λ (r : ChatStart × Chats). rows_of v r.1)
            (chat_refused history_turns now u body db e g)
      | inl (session, g) ↦
          ap (λ (r : ChatStart × Chats). rows_of v r.1)
            (chat_found history_turns now u body session db g)
          ∙ ap (rows_of v) (
              after_record-db history_turns body session
                (record_user_message now (user_message u body) session db))
          ∙ record_user-others v now (user_message u body) session db n t
              (get_session-holds u body.session_id db session g)
    ]

persist_turn-others :
    (v now u id : ℕ) (body : ChatRequest) (session : Session) (packets : List Packet)
    (o : Option AssistantRow) (db : Chats)
    → v ≢ u
    → IsChats db
    → any (holds session.id u) db.sessions ≡ true
    → rows_of v (persist_turn now u id body session packets o db).2 ≡ rows_of v db
unfolding persist_turn
persist_turn-others v now u id body session packets none db n t own = refl
persist_turn-others v now u id body session packets (some row) db n t own =
    ap (rows_of v)
      (after_insert-db id body session packets (record_assistant_message now u row session db))
    ∙ record_assistant-others v now u row session db n t own

finish_turn-others :
    {Store : Type 0} (v now u id : ℕ) (body : ChatRequest) (session : Session)
    (ran : Progress Store) (db : Chats)
    → v ≢ u
    → IsChats db
    → any (holds session.id u) db.sessions ≡ true
    → rows_of v (finish_turn now u id body session ran db).2 ≡ rows_of v db
unfolding finish_turn
finish_turn-others v now u id body session ran db n t own = elim (Option-cases ran.failure) [
  | inr (e, f) ↦ rw (f, finish_turn) refl
  | inl f ↦
      rw (f, finish_turn)
        (persist_turn-others v now u id body session ran.packets
          (stream_turn id session.id body.client_message_id true ran.packets).1 db n t own)
]

-- The user whose request a step is.
abbrev pub actor : {s s' : Server} → Step s s' → ℕ
actor (create now new_id u title s) = u
actor (delete now u session_id s) = u
actor (begin history_turns now u body s) = u
actor (finish now id ran before t later s split) = t.user_id

-- From a well-formed state, a step of one user leaves the sessions and the messages of every other
-- user as they are.
pub Step-others :
    (v : ℕ) {s s' : Server} (st : Step s s')
    → IsServer s
    → v ≢ actor st
    → rows_of v s'.db ≡ rows_of v s.db
Step-others v (create now new_id u title s) h n = create_session-others v now new_id u title s.db n
Step-others v (delete now u session_id s) h n =
    delete_session-others v now u session_id s.db n h.tables
Step-others v (begin history_turns now u body s) h n =
    chat-others history_turns v now u body s.db n h.tables
Step-others v (finish now id ran before t later s split) h n =
    finish_turn-others v now t.user_id id t.body t.session ran s.db n h.tables
      (All-without (IsRunning s.db) before later t (rw split at h.turns)).0
