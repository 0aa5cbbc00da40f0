-- ===== src/Tests/Turns.antt =====
-- The theorems on chat turns at concrete inputs.
use me.Base.{ℕ, ◌≡◌, refl, none, some, List, [], ◌∷◌, ◌++◌, any, find, select, is_some, codes}
use me.Stream.{Packet}
use me.Stream.Outcome.{is_finish}
use me.Stream.State.{events_list, should_persist, set_event, assistant_content, get_event}
use me.Stream.Turn.{stream_turn, final_state}
use me.Agent.Loop.{Progress}
use me.Sessions.{Session, Message, Chats}
use me.Sessions.Service.{
  create_session, get_session, record_user_message, record_assistant_message,
  find_assistant_for_user_message, assistant_row, load_recent_history,
}
use me.Sessions.Table.{check_constraints, index_violation, touch_session}
use me.Paging.{order_by}
use me.Helpers.{validate_location_pair}
use me.Chat.{ChatRequest, replaying, streaming, chat, finish_turn, run_turn}
use me.Chat.Turns.{RunningTurn, started}
use me.Chat.History.{Server, IsServer, here, next, create, begin, finish, Reach-IsServer}
use me.Chat.Retry.{chat_retry, chat_answered}
use me.Chat.Owners.{rows_of}
use me.Chat.Isolation.{Step-others}
use me.Chat.Framing.{finish_turn-finish}
use me.Tests.Agents.{runtime, localize}
use me.Tests.Memories.{three_not_four}
use me.Tests.Streams.{two_packets}
use me.Tests.Chats.{trip, reply, one_turn}

abbrev no_rows : Server
no_rows = record { db = record { sessions = []; messages = [] }; running = [] }

no_rows-IsServer : IsServer no_rows
no_rows-IsServer = record {
  tables = record {
    unique_sessions = tt;
    unique_messages = tt;
    unique_replies = tt;
    each_message = tt;
  };
  turns = tt;
}

abbrev hello : ChatRequest
hello = record {
  session_id = 1;
  client_message_id = 11;
  message = codes "Hi";
  client_tz = codes "UTC";
  client_location = none;
}

-- What an agent that says two fragments has done.
abbrev says_hello : Progress ℕ
says_hello = record {
  packets = two_packets;
  state = record { messages = []; store = 0; requests = [] };
  failure = none;
}

abbrev opened : Server
opened = record no_rows { db = (create_session 1000 1 3 none no_rows.db).1 }

abbrev begun : Server
begun = record {
  db = (chat 10 1001 3 hello opened.db).1;
  running = started 3 hello (chat 10 1001 3 hello opened.db).0 ++ opened.running;
}

abbrev fresh : Session
fresh = record {
  id = 1;
  user_id = 3;
  title = none;
  created_at = 1000;
  deleted_at = none;
  last_message_at = 1000;
}

begins : chat 10 1001 3 hello opened.db ≡ (streaming fresh [], begun.db)
unfolding chat get_session find create_session any record_user_message validate_location_pair
    check_constraints index_violation find_assistant_for_user_message load_recent_history order_by
    select
begins = refl

abbrev turn : RunningTurn
turn = record { user_id = 3; body = hello; session = fresh }

runs : begun.running ≡ turn ∷ []
unfolding chat get_session find create_session any record_user_message validate_location_pair
    check_constraints index_violation find_assistant_for_user_message
runs = refl

abbrev ended : Server
ended = record { db = (finish_turn 1002 3 12 hello fresh says_hello begun.db).2; running = [] }

Reach-IsServer_example : IsServer ended
Reach-IsServer_example = Reach-IsServer {s = no_rows} {s' = ended} no_rows-IsServer (
    next (next (next here (create 1000 1 3 none no_rows)) (begin 10 1001 3 hello opened))
      (finish 1002 12 says_hello [] turn [] begun runs))

Step-others_example : rows_of 4 opened.db ≡ rows_of 4 no_rows.db
Step-others_example =
    Step-others 4 {s = no_rows} {s' = opened} (create 1000 1 3 none no_rows) no_rows-IsServer
      three_not_four

abbrev stored : Message
stored =
    assistant_row 1002 3
      (record {
        id = 12;
        parent_message_id = 11;
        content = codes "Hello";
        events = events_list (final_state two_packets).events;
      })
      fresh

abbrev sent : List Packet
sent = (finish_turn 1002 3 12 hello fresh says_hello begun.db).0

finishes : finish_turn 1002 3 12 hello fresh says_hello begun.db ≡ (sent, some stored, ended.db)
unfolding finish_turn stream_turn should_persist set_event assistant_content events_list get_event
    record_assistant_message chat get_session find create_session any record_user_message
    validate_location_pair check_constraints index_violation find_assistant_for_user_message
    touch_session
finishes = refl

chat_retry_example :
    (chat 10 2000 3 hello ended.db ≡ (replaying stored, ended.db))
    × (stored.events ≡ events_list (final_state two_packets).events)
chat_retry_example =
    chat_retry 10 1001 1002 2000 3 12 hello fresh [] says_hello sent stored opened.db begun.db
      ended.db begins finishes

finish_turn-finish_example :
    any is_finish
      (finish_turn 1002 3 12 hello fresh
        (run_turn runtime localize (codes "2025-01-01") hello [] 5)
        begun.db).0
    ≡ is_some
        (finish_turn 1002 3 12 hello fresh
          (run_turn runtime localize (codes "2025-01-01") hello [] 5)
          begun.db).1
finish_turn-finish_example =
    finish_turn-finish runtime localize (codes "2025-01-01") 1002 3 12 hello fresh [] 5 begun.db

-- User 4 sends the id of a message of user 3.
abbrev prying : ChatRequest
prying = record hello { session_id = 2 }

abbrev own_session : Session
own_session = record trip { id = 2; user_id = 4 }

abbrev two_users : Chats
two_users = record one_turn { sessions = own_session ∷ one_turn.sessions }

chat_answered_example : chat 10 2000 4 prying two_users ≡ (replaying reply, two_users)
unfolding get_session validate_location_pair any find find_assistant_for_user_message
chat_answered_example =
    chat_answered 10 2000 4 prying own_session tt reply two_users refl refl refl refl
