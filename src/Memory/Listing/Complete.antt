-- ===== src/Memory/Listing/Complete.antt =====
-- Listing memories page by page is complete.
use mathlib.Core.List.{Perm}
use me.Base.{
  ℕ, ◌<◌, ◌≡◌, refl, true, false, Option, none, some, List, [], ◌∷◌, ◌||◌, arith, length, select,
  any, Text, text_eq, codes,
}
use me.Errors.{Result, ok, err}
use me.Paging.{Key, newest_first, get_page}
use me.Paging.Order.{AllComparable, Comparable, Sorted, newest_first-IsStrict}
use me.Paging.Walk.{walk_complete}
use me.Cursor.{Codec, IsCodec, encode_cursor}
use me.Cursor.RoundTrip.{decode-encode}
use me.Cursor.Client.{collect, collect-walk, all_answered, walk_answered, encode_next, encode_page}
use me.Platform.{Platform}
use me.Memory.{Memory, World}
use me.Memory.Table.Unique.{clash, Unique}
use me.Memory.Valid.{IsTable}
use me.Memory.Search.{clamp_limit}
use me.Memory.Listing.{memory_key, is_listed, cursor_date, list_memories}

comparable_rows :
    (x y : Memory)
    → clash x y ≡ false
    → (newest_first (memory_key x) (memory_key y) || newest_first (memory_key y) (memory_key x))
      ≡ true
unfolding clash newest_first
comparable_rows x y h = ground arith

AllComparable-row :
    (x : Memory) (rows : List Memory)
    → any (clash x) rows ≡ false
    → AllComparable memory_key newest_first x rows
unfolding any
AllComparable-row x [] h = tt
AllComparable-row x (y ∷ rows) h =
    (comparable_rows x y (ground arith), AllComparable-row x rows (ground arith))

-- Two rows of a table have different ids, so the order of the list is total on them.
Unique-Comparable : (rows : List Memory) → Unique rows → Comparable memory_key newest_first rows
Unique-Comparable [] u = tt
Unique-Comparable (x ∷ rows) u = (AllComparable-row x rows u.0, Unique-Comparable rows u.1)

abbrev pub answer : Result (List Memory × Option Text) → Option (List Memory × Option Text)
answer (ok page) = some page
answer (err e) = none

clamp_pos : (limit : ℕ) → 0 < clamp_limit limit
unfolding clamp_limit
clamp_pos limit = ground arith

no_v : text_eq (codes "v") cursor_date ≡ false
unfolding text_eq
no_v = refl

no_id : text_eq cursor_date (codes "id") ≡ false
unfolding text_eq
no_id = refl

module _ (c : Codec) (lib : IsCodec c) (user_id : ℕ) (from_date to_date : Option ℕ) (limit : ℕ)
    (w : World) where
  abbrev pub ask : Option Text → Option (List Memory × Option Text)
  ask cursor = answer (list_memories c user_id from_date to_date cursor limit w)

  ask_page :
      (k : Option Key)
      → ask (encode_next (encode_cursor c cursor_date) k)
        ≡ some (
            encode_page (encode_cursor c cursor_date) (
              get_page memory_key newest_first
                (is_listed user_id from_date to_date)
                k
                (clamp_limit limit)
                w.memories))
  unfolding list_memories
  ask_page none = refl
  ask_page (some k) = rw (decode-encode c lib cursor_date k no_v no_id)

  -- In a well-formed table, with a codec that behaves as documented, a client that starts without a
  -- cursor and sends back each cursor it gets receives every live row of the user in the range of dates,
  -- as often as it stands in the table, by descending date and id, if it may make more requests than the
  -- table has rows. No request is refused.
  pub list_memories_complete :
      (p : Platform) (fuel : ℕ)
      → IsTable p w.memories
      → length w.memories < fuel
      → Perm (collect ask fuel none) (select (is_listed user_id from_date to_date) w.memories)
        × Sorted memory_key newest_first (collect ask fuel none)
        × (all_answered ask fuel none ≡ true)
  list_memories_complete p fuel t enough =
      let listed = is_listed user_id from_date to_date in
      let same =
        collect-walk ask (encode_cursor c cursor_date) memory_key newest_first listed
          (clamp_limit limit) w.memories ask_page fuel none in
      let answered =
        walk_answered ask (encode_cursor c cursor_date) memory_key newest_first listed
          (clamp_limit limit) w.memories ask_page fuel none in
      let (all, sorted) =
        walk_complete memory_key newest_first newest_first-IsStrict fuel listed (clamp_limit limit)
          w.memories (clamp_pos limit) (Unique-Comparable w.memories t.unique) enough in
      (rw same all, rw same sorted, answered)
