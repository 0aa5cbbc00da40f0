-- ===== src/Memory/Listing.antt =====
-- `list_memories` of app/services/memory.py.
pub mod Complete
use me.Base.{
  ℕ, Bool, true, Option, none, some, List, [], ◌∷◌, ◌&&◌, ◌==◌, leb, Text, codes, is_none,
  if◌then◌else◌,
}
use me.Errors.{Result, ok, err, ◌>>=◌}
use me.Paging.{Key, newest_first, get_page}
use me.Cursor.{Codec, encode_cursor, decode_cursor}
use me.Cursor.Client.{encode_page}
use me.Memory.{Memory, World}
use me.Memory.Search.{clamp_limit}

-- `order_by(Memory.event_date.desc(), Memory.id.desc())`
abbrev pub memory_key : Memory → Key
memory_key r = record { at = r.event_date; id = r.id }

abbrev pub not_before : Option ℕ → ℕ → Bool
not_before none d = true
not_before (some from) d = leb from d

abbrev pub not_after : Option ℕ → ℕ → Bool
not_after none d = true
not_after (some to) d = leb d to

-- The conditions of the query, but for the cursor.
unfoldable pub is_listed : ℕ → (from_date to_date : Option ℕ) → Memory → Bool
is_listed user_id from_date to_date r =
    r.user_id == user_id
    && is_none r.deleted_at
    && not_before from_date r.event_date
    && not_after to_date r.event_date

abbrev pub cursor_date : Text
cursor_date = codes "ed"

decode_optional : Codec → Option Text → Result (Option Key)
decode_optional c none = ok none
decode_optional c (some cursor) = do k ← decode_cursor c cursor_date cursor; ok (some k)

unfoldable pub list_memories :
    Codec
    → (user_id : ℕ) (from_date to_date : Option ℕ) (cursor : Option Text) (limit : ℕ) → World
    → Result (List Memory × Option Text)
unfolding decode_optional
list_memories c user_id from_date to_date cursor limit w = do
  key ← decode_optional c cursor
  ok (
      encode_page (encode_cursor c cursor_date) (
        get_page memory_key newest_first (is_listed user_id from_date to_date) key
          (clamp_limit limit) w.memories))
