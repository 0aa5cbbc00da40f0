-- ===== src/Tests/Chats.antt =====
-- The theorems on sessions and messages at concrete inputs.
use mathlib.Core.List.{Perm}
use me.Base.{
  ◌≡◌, ◌⊎◌, refl, false, none, some, List, [], ◌∷◌, ◌++◌, ◌*◌, ◌≤◌, ◌&&◌, map, any, find, select,
  length, is_some, codes, arith,
}
use me.Errors.{ok, err, session_not_found}
use me.Paging.{newest_first, oldest_first}
use me.Paging.Order.{Sorted}
use me.Cursor.Client.{collect}
use me.Sessions.{Session, Message, user, assistant, Chats}
use me.Sessions.Table.{is_live_in, check_constraints}
use me.Sessions.Service.{
  get_session, delete_session, is_owned_live, is_recent, turn_of, message_key, load_recent_history,
}
use me.Sessions.Pages.{session_key, is_listed, desc, before}
use me.Sessions.Valid.{IsChats}
use me.Sessions.Complete.{
  ask_sessions, ask_messages, list_sessions_complete, list_session_messages_complete,
}
use me.Sessions.Recent.{load_recent_history-latest}
use me.Sessions.Deletion.{delete_session-hides}
use me.Tests.Json.{codec, codec-IsCodec}

abbrev pub trip : Session
trip = record {
  id = 1;
  user_id = 3;
  title = some (codes "Trip");
  created_at = 1000;
  deleted_at = none;
  last_message_at = 1001;
}

abbrev pub question : Message
question = record {
  id = 11;
  session_id = 1;
  user_id = 3;
  role = user;
  content = codes "Hi";
  events = none;
  parent_message_id = none;
  client_tz = some (codes "UTC");
  location_lat = none;
  location_lng = none;
  created_at = 1001;
  deleted_at = none;
}

abbrev pub reply : Message
reply = record {
  id = 12;
  session_id = 1;
  user_id = 3;
  role = assistant;
  content = codes "Hello";
  events = none;
  parent_message_id = some 11;
  client_tz = none;
  location_lat = none;
  location_lng = none;
  created_at = 1002;
  deleted_at = none;
}

-- A session of user 3 with one turn.
abbrev pub one_turn : Chats
one_turn = record { sessions = trip ∷ []; messages = reply ∷ question ∷ [] }

pub one_turn-IsChats : IsChats one_turn
unfolding any check_constraints
one_turn-IsChats = record {
  unique_sessions = (refl, tt);
  unique_messages = (refl, (refl, tt));
  unique_replies = (refl, (refl, tt));
  each_message = (
    record { checks = refl; owned = refl; parent = refl },
    (record { checks = refl; owned = refl; parent = refl }, tt),
  );
}

list_sessions_complete_example :
    Perm
      (collect (ask_sessions codec codec-IsCodec 20 one_turn 3) 2 none)
      (select (is_listed 3) one_turn.sessions)
    × Sorted session_key newest_first
        (collect (ask_sessions codec codec-IsCodec 20 one_turn 3) 2 none)
list_sessions_complete_example =
    list_sessions_complete codec codec-IsCodec 20 one_turn 3 2 one_turn-IsChats (omega arith)

list_session_messages_complete_example :
    Perm
      (collect (ask_messages codec codec-IsCodec 20 one_turn 1 desc) 3 none)
      (select (is_live_in 1) one_turn.messages)
    × Sorted message_key
        (before desc)
        (collect (ask_messages codec codec-IsCodec 20 one_turn 1 desc) 3 none)
list_session_messages_complete_example =
    list_session_messages_complete codec codec-IsCodec 20 one_turn 1 desc 3 one_turn-IsChats
      (omega arith)

load_recent_history-latest_example :
    (older recent : List Message) × (load_recent_history 1 11 10 one_turn ≡ map turn_of recent)
    × (length recent ≤ 2 * 10)
    × ((older ≡ []) ⊎ (length recent ≡ 2 * 10))
    × Sorted message_key oldest_first (older ++ recent)
    × Perm (older ++ recent) (select (is_recent 1 11) one_turn.messages)
load_recent_history-latest_example = load_recent_history-latest 1 11 10 one_turn one_turn-IsChats

abbrev deleted : Chats
deleted = (delete_session 1003 3 1 one_turn).1

deletes : delete_session 1003 3 1 one_turn ≡ (ok tt, deleted)
unfolding delete_session find
deletes = refl

delete_session-hides_example :
    (get_session 3 1 deleted ≡ err session_not_found)
    × (delete_session 1004 3 1 deleted ≡ (ok tt, deleted))
    × ((is_some (find (is_owned_live 3 1) one_turn.sessions) && any (is_live_in 1) deleted.messages)
        ≡ false)
delete_session-hides_example =
    delete_session-hides 1003 1004 3 1 one_turn deleted one_turn-IsChats deletes
