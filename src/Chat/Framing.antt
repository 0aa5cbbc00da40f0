-- ===== src/Chat/Framing.antt =====
-- How the stream of a chat turn ends: app/api/_chat_stream.py with the packets of
-- app/agents/runtime.py.
use me.Base.{
  ℕ, ◌≡◌, refl, ap, ◌∙◌, Bool, true, false, ◌&&◌, Option, none, some, List, inl, inr, any, is_some,
  Option-cases, Text, ◌⊎◌,
}
use me.Errors.{Result, ok, err}
use me.Stream.{Packet}
use me.Stream.Turn.{AssistantRow, stream_turn}
use me.Stream.Outcome.{is_finish, stream_turn-stored, any-stream_turn, run_packets-finish}
use me.Agent.{Runtime}
use me.Agent.Prompt.{render_system_prompt}
use me.Agent.Loop.{HistoryTurn, Progress}
use me.Agent.Timeline.{run_agent_stream-IsTimeline, IsTimeline-unframed}
use me.Sessions.{Session, Message, Chats}
use me.Sessions.Service.{record_assistant_message}
use me.Chat.{ChatRequest, after_insert, persist_turn, finish_turn, run_turn}

and_false : (b : Bool) → (b && false) ≡ false
and_false true = refl
and_false false = refl

unstored :
    (id s c : ℕ) (packets : List Packet)
    → any is_finish packets ≡ false
    → any is_finish (stream_turn id s c false packets).0 ≡ false
unstored id s c packets h =
    any-stream_turn id s c false packets h ∙ stream_turn-stored id s c false packets ∙ and_false _

after_insert-finish :
    (id : ℕ) (body : ChatRequest) (session : Session) (packets : List Packet)
    (r : Result Message × Chats)
    → any is_finish packets ≡ false
    → is_some (stream_turn id session.id body.client_message_id true packets).1 ≡ true
    → any is_finish (after_insert id body session packets r).0
      ≡ is_some (after_insert id body session packets r).1
unfolding after_insert
after_insert-finish id body session packets (err e, db) h stored =
    unstored id session.id body.client_message_id packets h
after_insert-finish id body session packets (ok m, db) h stored =
    any-stream_turn id session.id body.client_message_id true packets h ∙ stored

persist_turn-finish :
    (now user_id id : ℕ) (body : ChatRequest) (session : Session) (packets : List Packet)
    (o : Option AssistantRow) (db : Chats)
    → any is_finish packets ≡ false
    → (stream_turn id session.id body.client_message_id true packets).1 ≡ o
    → any is_finish (persist_turn now user_id id body session packets o db).0
      ≡ is_some (persist_turn now user_id id body session packets o db).1
unfolding persist_turn
persist_turn-finish now user_id id body session packets none db h e =
    any-stream_turn id session.id body.client_message_id true packets h ∙ ap is_some e
persist_turn-finish now user_id id body session packets (some row) db h e =
    after_insert-finish id body session packets
      (record_assistant_message now user_id row session db) h (ap is_some e)

finish_turn-unframed :
    {Store : Type 0} (now user_id id : ℕ) (body : ChatRequest) (session : Session)
    (ran : Progress Store) (db : Chats)
    → any is_finish ran.packets ≡ false
    → any is_finish (finish_turn now user_id id body session ran db).0
      ≡ is_some (finish_turn now user_id id body session ran db).1
unfolding finish_turn any
finish_turn-unframed now user_id id body session ran db h = elim (Option-cases ran.failure) [
  | inr (e, f) ↦ rw (f, finish_turn) (run_packets-finish ran.packets ∙ h)
  | inl f ↦
      rw (f, finish_turn)
        (persist_turn-finish now user_id id body session ran.packets
          (stream_turn id session.id body.client_message_id true ran.packets).1 db h refl)
]

-- Whatever the model, the tools and the database do, the stream of a chat turn has a finish packet
-- exactly when the assistant's row is stored.
pub finish_turn-finish :
    {Store Args Res : Type 0} (rt : Runtime Store Args Res) (localize : Text → Text → Text ⊎ Text)
    (now_utc : Text) (now user_id id : ℕ) (body : ChatRequest) (session : Session)
    (history : List HistoryTurn) (store : Store) (db : Chats)
    → any is_finish
        (finish_turn now user_id id body session
          (run_turn rt localize now_utc body history store)
          db).0
      ≡ is_some
          (finish_turn now user_id id body session
            (run_turn rt localize now_utc body history store)
            db).1
unfolding run_turn
finish_turn-finish rt localize now_utc now user_id id body session history store db =
    let ran = run_turn rt localize now_utc body history store in
    finish_turn-unframed now user_id id body session ran db (
      IsTimeline-unframed ran.packets (
        run_agent_stream-IsTimeline rt body.message
          (render_system_prompt localize now_utc body.client_tz) history store))
