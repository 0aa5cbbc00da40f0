-- ===== src/Cursor/Session.antt =====
-- The cursors of app/services/sessions.py: `_encode_cursor` and `_decode_cursor`.
use me.Base.{
  ℕ, ◌≡◌, ◌⊎◌, inl, inr, Bool-cases, refl, Bool, true, false, Option, none, some, Text, codes,
  text_eq, text_eq_self, if◌then◌else◌, arith,
}
use me.Errors.{Result, ok, err, value_error, recursion_error}
use me.Paging.{Key}
use me.Cursor.{
  Json, Loaded, loaded, invalid_json, too_deep, Codec, IsCodec, integer, str, obj, field, end, get,
  is_version, rstrip_pad, load_cursor, encode_cursor, payload,
}
use me.Cursor.RoundTrip.{load-encode}

-- `{"v": _CURSOR_VERSION, "ts": ts.isoformat(), "id": str(row_id)}`
unfoldable pub session_payload : Codec → Key → Json
session_payload c k = obj (
    field (codes "v") (integer 1) (
      field (codes "ts") (str (c.isoformat k.at)) (field (codes "id") (str (c.str_uuid k.id)) end)))

unfoldable pub encode_session_cursor : Codec → Key → Text
unfolding session_payload rstrip_pad
encode_session_cursor c k = rstrip_pad (c.b64encode (c.dumps (session_payload c k)))

-- `datetime.fromisoformat(ts), UUID(rid)`
parse_position : Option ℕ → Option ℕ → Result Key
parse_position (some at) (some id) = ok (record { at = at; id = id })
parse_position _ _ = err value_error

read_position : Codec → Json → Json → Result Key
unfolding parse_position
read_position c (str at) (str id) = parse_position (c.fromisoformat at) (c.parse_uuid id)
read_position c _ _ = err value_error

read_session_payload : Codec → Loaded → Result Key
unfolding read_position get is_version
read_session_payload c too_deep = err recursion_error
read_session_payload c (loaded (obj fields)) =
    if is_version (get (codes "v") fields)
    then read_position c (get (codes "ts") fields) (get (codes "id") fields)
    else err value_error
read_session_payload c _ = err value_error

-- Every failed test raises the same `ValueError("malformed cursor")`. The bytes are loaded as by the
-- memory service.
unfoldable pub decode_session_cursor : Codec → Text → Result Key
unfolding read_session_payload load_cursor
decode_session_cursor c cursor = read_session_payload c (load_cursor c cursor)

fields_differ :
    (text_eq (codes "v") (codes "ts") ≡ false)
    × (text_eq (codes "v") (codes "id") ≡ false)
    × (text_eq (codes "ts") (codes "id") ≡ false)
unfolding text_eq
fields_differ = (refl, refl, refl)

module _ (c : Codec) (lib : IsCodec c) (k : Key) where
  load-encode_session : load_cursor c (encode_session_cursor c k) ≡ loaded (session_payload c k)
  unfolding encode_session_cursor session_payload encode_cursor payload
  load-encode_session = load-encode c lib (codes "ts") k

  -- With a codec that behaves as documented, `_decode_cursor` of the sessions service accepts what its
  -- `_encode_cursor` made of a position and an id, and gives them back.
  pub decode-encode_session : decode_session_cursor c (encode_session_cursor c k) ≡ ok k
  unfolding decode_session_cursor session_payload
  decode-encode_session = rw load-encode_session (
      ground (
        arith,
        fields_differ,
        text_eq_self (codes "v"),
        text_eq_self (codes "id"),
        text_eq_self (codes "ts"),
        lib.fromisoformat-isoformat k.at,
        lib.parse_uuid-str_uuid k.id,
      ))

abbrev pub nests_too_deeply : Loaded → Bool
nests_too_deeply too_deep = true
nests_too_deeply l = false

-- Whether `json.loads` raises a `RecursionError` on the text of a cursor.
unfoldable pub is_too_deep : Codec → Text → Bool
unfolding load_cursor
is_too_deep c cursor = nests_too_deeply (load_cursor c cursor)

-- A position, or the one error or the other.
abbrev pub Decoded : Result Key → Bool → Type 0
Decoded r deep =
    ((k : Key) × (r ≡ ok k) × (deep ≡ false))
    ⊎ ((r ≡ err value_error) × (deep ≡ false))
    ⊎ ((r ≡ err recursion_error) × (deep ≡ true))

parse_position-Decoded : (at id : Option ℕ) → Decoded (parse_position at id) false
unfolding parse_position
parse_position-Decoded (some at) (some id) = inl (_, refl, refl)
parse_position-Decoded none id = inr (inl (refl, refl))
parse_position-Decoded (some at) none = inr (inl (refl, refl))

read_position-Decoded : (c : Codec) (at id : Json) → Decoded (read_position c at id) false
unfolding read_position
read_position-Decoded c (str at) (str id) =
    parse_position-Decoded (c.fromisoformat at) (c.parse_uuid id)
read_position-Decoded c (str at) _ = inr (inl (refl, refl))
read_position-Decoded c _ _ = inr (inl (refl, refl))

read_session_payload-Decoded :
    (c : Codec) (l : Loaded) → Decoded (read_session_payload c l) (nests_too_deeply l)
unfolding read_session_payload
read_session_payload-Decoded c too_deep = inr (inr (refl, refl))
read_session_payload-Decoded c invalid_json = inr (inl (refl, refl))
read_session_payload-Decoded c (loaded (obj fields)) =
    elim (Bool-cases (is_version (get (codes "v") fields))) [
      | inl e ↦ rw e (read_position-Decoded c (get (codes "ts") fields) (get (codes "id") fields))
      | inr e ↦ rw e (inr (inl (refl, refl)))
    ]
read_session_payload-Decoded c (loaded j) = inr (inl (refl, refl))

pub decode_session_cursor-Decoded :
    (c : Codec) (cursor : Text) → Decoded (decode_session_cursor c cursor) (is_too_deep c cursor)
unfolding decode_session_cursor is_too_deep
decode_session_cursor-Decoded c cursor = read_session_payload-Decoded c (load_cursor c cursor)
