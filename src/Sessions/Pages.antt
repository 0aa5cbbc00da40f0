-- ===== src/Sessions/Pages.antt =====
-- `list_sessions` and `list_session_messages` of app/services/sessions.py.
use me.Base.{ℕ, Bool, Option, none, some, List, ◌&&◌, ◌==◌, Text, is_none}
use me.Errors.{Result, ok, ◌>>=◌}
use me.Paging.{Key, newest_first, oldest_first, get_page}
use me.Cursor.{Codec}
use me.Cursor.Session.{encode_session_cursor, decode_session_cursor}
use me.Cursor.Client.{encode_page}
use me.Memory.Search.{clamp_limit}
use me.Sessions.{Session, Message, Chats}
use me.Sessions.Table.{is_live_in}
use me.Sessions.Service.{message_key}

abbrev pub session_key : Session → Key
session_key r = record { at = r.last_message_at; id = r.id }

-- `Session.user_id == user_id, Session.deleted_at.is_(None)`
abbrev pub is_listed : ℕ → Session → Bool
is_listed user_id r = r.user_id == user_id && is_none r.deleted_at

unfoldable pub decode_optional : Codec → Option Text → Result (Option Key)
decode_optional c none = ok none
decode_optional c (some cursor) = do k ← decode_session_cursor c cursor; ok (some k)

unfoldable pub list_sessions :
    Codec
    → (user_id : ℕ) (cursor : Option Text) (limit : ℕ) → Chats
    → Result (List Session × Option Text)
unfolding decode_optional
list_sessions c user_id cursor limit db = do
  key ← decode_optional c cursor
  ok (
      encode_page (encode_session_cursor c)
        (get_page session_key newest_first (is_listed user_id) key (clamp_limit limit) db.sessions))

pub data Direction : Type 0 where
  asc desc : Direction

abbrev pub before : Direction → Key → Key → Bool
before asc = oldest_first
before desc = newest_first

-- The model takes the id of the session.
unfoldable pub list_session_messages :
    Codec
    → (session_id : ℕ) (cursor : Option Text) (limit : ℕ) → Direction
    → Chats
    → Result (List Message × Option Text)
unfolding decode_optional
list_session_messages c session_id cursor limit direction db = do
  key ← decode_optional c cursor
  ok (
      encode_page (encode_session_cursor c) (
        get_page message_key (before direction) (is_live_in session_id) key (clamp_limit limit)
          db.messages))
