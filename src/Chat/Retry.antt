-- ===== src/Chat/Retry.antt =====
-- A chat request that is sent again after its turn is stored.
use me.Base.{
  ℕ, ◌≡◌, sym, refl, ◌∙◌, ap, true, Option, none, some, List, arith, inl, inr, is_some,
  Option-cases, any, find,
}
use me.Errors.{Result, ok}
use me.Helpers.{validate_location_pair}
use me.Stream.{Packet}
use me.Stream.State.{events_list}
use me.Stream.Turn.{stream_turn-row, final_state, AssistantRow, stream_turn}
use me.Agent.Loop.{HistoryTurn, Progress}
use me.Sessions.{Session, Message, Chats}
use me.Sessions.Table.{has_message_id}
use me.Sessions.Service.{
  is_owned_live, get_session, UserMessage, existing_message, insert_user_message,
  record_user_message, record_assistant_message, find_assistant_for_user_message,
}
use me.Chat.{
  after_record, ChatRequest, user_message, replaying, streaming, decide_turn, begin_turn, chat,
  persist_turn, finish_turn, chat_found,
}
use me.Chat.Recorded.{
  chat-streaming, record_user_message-ok, checks_of_located, Stored, record_assistant_message-ok,
  after_insert-some, find-any, find-touch_session, record_user_message-sessions, get_session-found,
  found-get_session,
}

-- A message that is there is returned, and nothing is written.
pub record_user_message-again :
    (now : ℕ) (a : UserMessage) (session : Session) (u : Unit {0}) (db : Chats)
    → validate_location_pair a.location_lat a.location_lng ≡ ok u
    → any (has_message_id a.client_message_id) db.messages ≡ true
    → (m : Message) × (record_user_message now a session db ≡ (ok m, db))
unfolding record_user_message insert_user_message existing_message
record_user_message-again now a session u db l t =
    let c = checks_of_located now a session u l in
    let f = find-any (has_message_id a.client_message_id) db.messages t in
    elim (Option-cases (find (has_message_id a.client_message_id) db.messages)) [
      | inl e ↦ absurd (ground arith)
      | inr (m, e) ↦ (m, ground arith)
    ]

-- If the session of a request is its sender's and live, its location is valid, and a message with its
-- `client_message_id` is there and has a live reply, the handler changes nothing and replays that
-- reply, whichever user and session that message belongs to.
pub chat_answered :
    (history_turns now user_id : ℕ) (body : ChatRequest) (s : Session) (u : Unit {0}) (m : Message)
    (db : Chats)
    → get_session user_id body.session_id db ≡ ok s
    → validate_location_pair
        (user_message user_id body).location_lat
        (user_message user_id body).location_lng
      ≡ ok u
    → any (has_message_id body.client_message_id) db.messages ≡ true
    → find_assistant_for_user_message body.client_message_id db ≡ some m
    → chat history_turns now user_id body db ≡ (replaying m, db)
unfolding begin_turn after_record decide_turn
chat_answered history_turns now user_id body s u m db g l t f =
    let again = record_user_message-again now (user_message user_id body) s u db l t in
    chat_found history_turns now user_id body s db g
    ∙ rw (again.1, after_record) (rw (f, decide_turn) refl)

row-Stored :
    (now user_id id : ℕ) (body : ChatRequest) (session : Session) (packets : List Packet)
    (row : AssistantRow) (m : Message) (db db' : Chats)
    → (stream_turn id session.id body.client_message_id true packets).1 ≡ some row
    → record_assistant_message now user_id row session db ≡ (ok m, db')
    → Stored body session packets m db db'
row-Stored now user_id id body session packets row m db db' same h =
    let r = stream_turn-row id session.id body.client_message_id true packets row same in
    let k = record_assistant_message-ok now user_id row session m db db' h in
    record {
      answers = rw k.0 (rw r (ground arith));
      cached = rw k.0 (rw r refl);
      table = rw k.0 (ap (λ (d : Chats). d.messages) k.1);
      now = now;
      sessions = ap (λ (d : Chats). d.sessions) k.1;
    }

persist_turn-Stored :
    (now user_id id : ℕ) (body : ChatRequest) (session : Session) (packets wire : List Packet)
    (o : Option AssistantRow) (m : Message) (db db' : Chats)
    → (stream_turn id session.id body.client_message_id true packets).1 ≡ o
    → persist_turn now user_id id body session packets o db ≡ (wire, some m, db')
    → Stored body session packets m db db'
unfolding persist_turn
persist_turn-Stored now user_id id body session packets wire none m db db' same h =
    absurd (ground arith)
persist_turn-Stored now user_id id body session packets wire (some row) m db db' same h =
    row-Stored now user_id id body session packets row m db db' same (
      after_insert-some id body session packets wire m
        (record_assistant_message now user_id row session db) db' h)

finish_turn-Stored :
    {Store : Type 0} (now user_id id : ℕ) (body : ChatRequest) (session : Session)
    (ran : Progress Store) (wire : List Packet) (m : Message) (db db' : Chats)
    → finish_turn now user_id id body session ran db ≡ (wire, some m, db')
    → Stored body session ran.packets m db db'
unfolding finish_turn
finish_turn-Stored now user_id id body session ran wire m db db' h =
    elim (Option-cases ran.failure) [
      | inr (e, f) ↦ absurd (ground arith)
      | inl f ↦
          persist_turn-Stored now user_id id body session ran.packets wire
            (stream_turn id session.id body.client_message_id true ran.packets).1 m db db' refl
            (ground arith)
    ]

-- If a request starts a new turn, and the turn stores a row, with no other request between, then the
-- same request again, at whatever time it comes next, replays that row: it runs no agent, and changes
-- neither table. The row holds the events that the packets of the agent were folded into.
pub chat_retry :
    (history_turns : ℕ)
    → {Store : Type 0} (now now' now'' user_id id : ℕ) (body : ChatRequest) (session : Session)
      (history : List HistoryTurn) (ran : Progress Store) (wire : List Packet) (m : Message)
      (db db' db'' : Chats)
    → chat history_turns now user_id body db ≡ (streaming session history, db')
    → finish_turn now' user_id id body session ran db' ≡ (wire, some m, db'')
    → (chat history_turns now'' user_id body db'' ≡ (replaying m, db''))
      × (m.events ≡ events_list (final_state ran.packets).events)
unfolding find_assistant_for_user_message find any
chat_retry history_turns now now' now'' user_id id body session history ran wire m db db' db'' first
      finish =
    let begun = chat-streaming history_turns now user_id body session history db db' first in
    let rec =
      record_user_message-ok now (user_message user_id body) session begun.recorded.0 db db'
        begun.recorded.1 in
    let st = finish_turn-Stored now' user_id id body session ran wire m db' db'' finish in
    let there : any (has_message_id body.client_message_id) db''.messages ≡ true =
      rw st.table (ground arith) in
    let s = get_session-found user_id body.session_id db'' (
      rw st.sessions (
        find-touch_session user_id body.session_id session.id st.now none db'.sessions
        ∙ sym (
            ap
              (λ (x : Result Message × Chats).
                is_some (find (is_owned_live user_id body.session_id) x.1.sessions))
              begun.recorded.1)
        ∙ record_user_message-sessions now (user_message user_id body) session db user_id
            body.session_id
        ∙ found-get_session user_id body.session_id db session begun.found)) in
    (
      chat_answered history_turns now'' user_id body s.0 rec.located.0 m db'' s.1 rec.located.1
          there (rw st.table (rw st.answers refl)),
      st.cached,
    )
