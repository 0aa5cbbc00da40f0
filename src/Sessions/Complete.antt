-- ===== src/Sessions/Complete.antt =====
-- Listing sessions and messages page by page is complete.
use mathlib.Core.List.{Perm}
use me.Base.{
  ℕ, ◌<◌, ◌≡◌, refl, true, false, Option, none, some, List, [], ◌∷◌, ◌||◌, arith, length, select,
  any, Text,
}
use me.Errors.{Result, ok, err}
use me.Paging.{Key, newest_first, oldest_first, get_page}
use me.Paging.Order.{
  AllComparable, Comparable, Sorted, IsStrict, newest_first-IsStrict, oldest_first-IsStrict,
}
use me.Paging.Walk.{walk_complete}
use me.Cursor.{Codec, IsCodec}
use me.Cursor.Session.{encode_session_cursor, decode-encode_session}
use me.Cursor.Client.{collect, collect-walk, encode_next, encode_page}
use me.Memory.Search.{clamp_limit}
use me.Sessions.{Session, Message, Chats}
use me.Sessions.Table.{has_session_id, has_message_id, is_live_in}
use me.Sessions.Service.{message_key}
use me.Sessions.Pages.{
  session_key, is_listed, list_sessions, Direction, asc, desc, before, list_session_messages,
}
use me.Sessions.Valid.{UniqueSessions, UniqueMessages, IsChats}

AllComparable-session :
    (x : Session) (rows : List Session)
    → any (has_session_id x.id) rows ≡ false
    → AllComparable session_key newest_first x rows
unfolding any newest_first
AllComparable-session x [] h = tt
AllComparable-session x (y ∷ rows) h = (ground arith, AllComparable-session x rows (ground arith))

UniqueSessions-Comparable :
    (rows : List Session) → UniqueSessions rows → Comparable session_key newest_first rows
UniqueSessions-Comparable [] u = tt
UniqueSessions-Comparable (x ∷ rows) u =
    (AllComparable-session x rows u.0, UniqueSessions-Comparable rows u.1)

comparable_messages :
    (d : Direction) (x y : Message)
    → has_message_id x.id y ≡ false
    → (before d (message_key x) (message_key y) || before d (message_key y) (message_key x)) ≡ true
unfolding newest_first oldest_first
comparable_messages asc x y h = ground arith
comparable_messages desc x y h = ground arith

AllComparable-message :
    (d : Direction) (x : Message) (rows : List Message)
    → any (has_message_id x.id) rows ≡ false
    → AllComparable message_key (before d) x rows
unfolding any
AllComparable-message d x [] h = tt
AllComparable-message d x (y ∷ rows) h =
    (comparable_messages d x y (ground arith), AllComparable-message d x rows (ground arith))

pub UniqueMessages-Comparable :
    (d : Direction) (rows : List Message)
    → UniqueMessages rows
    → Comparable message_key (before d) rows
UniqueMessages-Comparable d [] u = tt
UniqueMessages-Comparable d (x ∷ rows) u =
    (AllComparable-message d x rows u.0, UniqueMessages-Comparable d rows u.1)

before-IsStrict : (d : Direction) → IsStrict (before d)
before-IsStrict asc = oldest_first-IsStrict
before-IsStrict desc = newest_first-IsStrict

-- What a client gets: a page, or nothing when the request is refused.
abbrev pub answer : {A : Type 0} → Result A → Option A
answer (ok page) = some page
answer (err e) = none

clamp_pos : (limit : ℕ) → 0 < clamp_limit limit
unfolding clamp_limit
clamp_pos limit = ground arith

module _ (c : Codec) (lib : IsCodec c) (limit : ℕ) (db : Chats) where
  abbrev pub ask_sessions : (user_id : ℕ) → Option Text → Option (List Session × Option Text)
  ask_sessions user_id cursor = answer (list_sessions c user_id cursor limit db)

  ask_sessions_page :
      (user_id : ℕ) (k : Option Key)
      → ask_sessions user_id (encode_next (encode_session_cursor c) k)
        ≡ some (
            encode_page (encode_session_cursor c) (
              get_page session_key newest_first
                (is_listed user_id)
                k
                (clamp_limit limit)
                db.sessions))
  unfolding list_sessions
  ask_sessions_page user_id none = refl
  ask_sessions_page user_id (some k) = rw (decode-encode_session c lib k) refl

  -- In well-formed tables, with a codec that behaves as documented, a client that starts without a
  -- cursor and sends back each cursor it gets from `list_sessions` receives every live session of the
  -- user, as often as it stands in the table, by descending `last_message_at` and id, if it may make
  -- more requests than the table has rows.
  pub list_sessions_complete :
      (user_id fuel : ℕ)
      → IsChats db
      → length db.sessions < fuel
      → Perm (collect (ask_sessions user_id) fuel none) (select (is_listed user_id) db.sessions)
        × Sorted session_key newest_first (collect (ask_sessions user_id) fuel none)
  list_sessions_complete user_id fuel t enough =
      let same =
        collect-walk (ask_sessions user_id) (encode_session_cursor c) session_key newest_first
          (is_listed user_id) (clamp_limit limit) db.sessions (ask_sessions_page user_id) fuel
          none in
      rw same (
        walk_complete session_key newest_first newest_first-IsStrict fuel (is_listed user_id)
          (clamp_limit limit) db.sessions (clamp_pos limit)
          (UniqueSessions-Comparable db.sessions t.unique_sessions) enough)

  abbrev pub ask_messages :
      (session_id : ℕ) → Direction → Option Text → Option (List Message × Option Text)
  ask_messages session_id d cursor = answer (list_session_messages c session_id cursor limit d db)

  ask_messages_page :
      (session_id : ℕ) (d : Direction) (k : Option Key)
      → ask_messages session_id d (encode_next (encode_session_cursor c) k)
        ≡ some (
            encode_page (encode_session_cursor c) (
              get_page message_key
                (before d)
                (is_live_in session_id)
                k
                (clamp_limit limit)
                db.messages))
  unfolding list_session_messages
  ask_messages_page session_id d none = refl
  ask_messages_page session_id d (some k) = rw (decode-encode_session c lib k) refl

  -- In well-formed tables, with a codec that behaves as documented, a client that starts without a
  -- cursor and sends back each cursor it gets from `list_session_messages` receives every live message
  -- of the session, as often as it stands in the table, by `created_at` and id, ascending or descending
  -- as it asks, if it may make more requests than the table has rows.
  pub list_session_messages_complete :
      (session_id : ℕ) (d : Direction) (fuel : ℕ)
      → IsChats db
      → length db.messages < fuel
      → Perm
          (collect (ask_messages session_id d) fuel none)
          (select (is_live_in session_id) db.messages)
        × Sorted message_key (before d) (collect (ask_messages session_id d) fuel none)
  list_session_messages_complete session_id d fuel t enough =
      let same =
        collect-walk (ask_messages session_id d) (encode_session_cursor c) message_key (before d)
          (is_live_in session_id) (clamp_limit limit) db.messages (ask_messages_page session_id d)
          fuel none in
      rw same (
        walk_complete message_key (before d) (before-IsStrict d) fuel (is_live_in session_id)
          (clamp_limit limit) db.messages (clamp_pos limit)
          (UniqueMessages-Comparable d db.messages t.unique_messages) enough)
