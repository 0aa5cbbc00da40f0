-- ===== src/Chat/History.antt =====
-- The requests that change sessions and messages, with turns that run at the same time: a turn begins
-- in one transaction and ends in a later one.
use me.Base.{ℕ, ◌≡◌, Option, List, ◌∷◌, ◌++◌, All, Text}
use me.Agent.Loop.{Progress}
use me.Sessions.{Chats}
use me.Sessions.Service.{create_session, delete_session}
use me.Sessions.Valid.{IsChats}
use me.Sessions.Valid.Operations.{create_session-IsChats, delete_session-IsChats}
use me.Chat.{ChatRequest, chat, finish_turn}
use me.Chat.Turns.{
  RunningTurn, started, IsRunning, create-KeepsOwners, delete-KeepsOwners, turns_kept, All-append,
  All-without, chat-Begun, finish_turn-Finished,
}

pub record Server : Type 0 where
  pub db : Chats
  pub running : List RunningTurn

pub data Step : Server → Server → Type 1 where
  create :
      (now new_id user_id : ℕ) (title : Option Text) (s : Server)
      → Step s (record s { db = (create_session now new_id user_id title s.db).1 })
  delete :
      (now user_id session_id : ℕ) (s : Server)
      → Step s (record s { db = (delete_session now user_id session_id s.db).1 })
  begin :
      (history_turns now user_id : ℕ) (body : ChatRequest) (s : Server)
      → Step s (record {
        db = (chat history_turns now user_id body s.db).1;
        running = started user_id body (chat history_turns now user_id body s.db).0 ++ s.running;
      })
  -- The turn is one of those that run; the agent has done anything.
  finish :
      {Store : Type 0} (now id : ℕ) (ran : Progress Store) (before : List RunningTurn)
      (t : RunningTurn) (later : List RunningTurn) (s : Server)
      → s.running ≡ before ++ t ∷ later
      → Step s (record {
        db = (finish_turn now t.user_id id t.body t.session ran s.db).2;
        running = before ++ later;
      })

pub data Reach (start : Server) : Server → Type 1 where
  here : Reach start start
  next : {s s' : Server} → Reach start s → Step s s' → Reach start s'

pub record IsServer (s : Server) : Type 0 where
  pub tables : IsChats s.db
  pub turns : All (IsRunning s.db) s.running

Step-IsServer : {s s' : Server} → Step s s' → IsServer s → IsServer s'
Step-IsServer (create now new_id user_id title s) h = record {
  tables = create_session-IsChats now new_id user_id title s.db h.tables;
  turns =
      turns_kept s.db (create_session now new_id user_id title s.db).1 s.running
        (create-KeepsOwners now new_id user_id title s.db) h.turns;
}
Step-IsServer (delete now user_id session_id s) h = record {
  tables = delete_session-IsChats now user_id session_id s.db h.tables;
  turns =
      turns_kept s.db (delete_session now user_id session_id s.db).1 s.running
        (delete-KeepsOwners now user_id session_id s.db) h.turns;
}
Step-IsServer (begin history_turns now user_id body s) h =
    let b = chat-Begun history_turns now user_id body s.db h.tables in
    record {
      tables = b.tables;
      turns =
          All-append _ _ _ b.turns (
            turns_kept s.db (chat history_turns now user_id body s.db).1 s.running b.owners
              h.turns);
    }
Step-IsServer (finish now id ran before t later s split) h =
    let (own, others) = All-without (IsRunning s.db) before later t (rw split at h.turns) in
    let f = finish_turn-Finished now t.user_id id t.body t.session ran s.db h.tables own in
    record {
      tables = f.tables;
      turns =
          turns_kept s.db (finish_turn now t.user_id id t.body t.session ran s.db).2
            (before ++ later) f.owners others;
    }

-- From a well-formed state, whatever requests come, in any order, and however their turns overlap,
-- the tables of sessions and messages stay well formed: ids are unique, a message has at most one
-- live reply, it keeps the checks of its table and belongs to the user of its session, its parent is
-- there; and the session of every running turn is its user's.
pub Reach-IsServer : {s s' : Server} → IsServer s → Reach s s' → IsServer s'
Reach-IsServer h here = h
Reach-IsServer h (next r st) = Step-IsServer st (Reach-IsServer h r)
