-- ===== src/Tests/Cursors.antt =====
-- The theorems on cursors and pages at concrete inputs.
use mathlib.Core.List.{Perm}
use me.Base.{
  Bool, true, false, ◌≡◌, refl, ◌≤◌, none, List, [], ◌∷◌, arith, codes, length, select, text_eq,
}
use me.Errors.{ok}
use me.Paging.{Key, newest_first, get_page}
use me.Paging.Order.{Sorted, newest_first-IsStrict}
use me.Paging.Walk.{walk, walk_complete, length-get_page-le}
use me.Cursor.{encode_cursor, decode_cursor}
use me.Cursor.RoundTrip.{decode-encode}
use me.Cursor.Session.{encode_session_cursor, decode_session_cursor, decode-encode_session}
use me.Cursor.Client.{collect, all_answered}
use me.Memory.Listing.{memory_key, is_listed}
use me.Memory.Listing.Complete.{ask, list_memories_complete}
use me.Tests.Json.{codec, codec-IsCodec}
use me.Tests.Data.{platform, one_memory}
use me.Tests.Memories.{one_memory-IsTable, length-one_memory}

abbrev noon : Key
noon = record { at = 43200; id = 7 }

no_v : text_eq (codes "v") (codes "ts") ≡ false
unfolding text_eq
no_v = refl

no_id : text_eq (codes "ts") (codes "id") ≡ false
unfolding text_eq
no_id = refl

decode-encode_example :
    decode_cursor codec (codes "ts") (encode_cursor codec (codes "ts") noon) ≡ ok noon
decode-encode_example = decode-encode codec codec-IsCodec (codes "ts") noon no_v no_id

decode-encode_session_example :
    decode_session_cursor codec (encode_session_cursor codec noon) ≡ ok noon
decode-encode_session_example = decode-encode_session codec codec-IsCodec noon

abbrev same_key : Key → Key
same_key k = k

abbrev everything : Key → Bool
everything k = true

abbrev three_keys : List Key
three_keys = record { at = 5; id = 1 } ∷ record { at = 9; id = 2 } ∷ record { at = 9; id = 3 } ∷ []

walk_complete_example :
    Perm (walk same_key newest_first 4 everything none 2 three_keys) (select everything three_keys)
    × Sorted same_key newest_first (walk same_key newest_first 4 everything none 2 three_keys)
unfolding newest_first
walk_complete_example =
    walk_complete same_key newest_first newest_first-IsStrict 4 everything 2 three_keys
      (omega arith) ((refl, (refl, tt)), ((refl, tt), (tt, tt))) (omega arith)

length-get_page-le_example :
    length (get_page same_key newest_first everything none 2 three_keys).0 ≤ 2
length-get_page-le_example =
    length-get_page-le same_key newest_first newest_first-IsStrict everything none 2 three_keys

list_memories_complete_example :
    Perm
      (collect (ask codec codec-IsCodec 3 none none 20 one_memory) 5 none)
      (select (is_listed 3 none none) one_memory.memories)
    × Sorted memory_key newest_first
        (collect (ask codec codec-IsCodec 3 none none 20 one_memory) 5 none)
    × (all_answered (ask codec codec-IsCodec 3 none none 20 one_memory) 5 none ≡ true)
list_memories_complete_example =
    list_memories_complete codec codec-IsCodec 3 none none 20 one_memory platform 5
      one_memory-IsTable (omega (arith, length-one_memory))
