-- ===== src/Cursor.antt =====
-- The opaque cursors: `encode_cursor` and `decode_cursor` of app/services/_memory_helpers.py.
pub mod RoundTrip
pub mod Session
pub mod Client
use me.Base.{
  ℕ, zero, suc, ◌-◌, ◌%◌, ◌≡◌, Bool, true, false, not, ◌&&◌, ◌||◌, Option, none, some, List, [],
  ◌∷◌, ◌++◌, ◌==◌, if◌then◌else◌, Text, codes, text_eq, is_empty, length, ◌<◌, ◌+◌,
}
use me.Errors.{
  Result, ok, err, ◌>>=◌, memory_validation_error, malformed_cursor, unsupported_cursor_version,
  cursor_missing_fields, cursor_field_not_parsed, recursion_error,
}
use me.Paging.{Key}

-- A value that `json.loads` returns. `negative n` is -(n + 1); `fraction` is a float but 1.0.
mutual
  pub data Json : Type 0 where
    null : Json
    boolean : Bool → Json
    integer negative : ℕ → Json
    one_float fraction : Json
    str : Text → Json
    arr : Items → Json
    obj : Fields → Json

  pub data Items : Type 0 where
    nil : Items
    cons : Json → Items → Items

  pub data Fields : Type 0 where
    end : Fields
    field : Text → Json → Fields → Fields

-- How `json.loads` ends: with a value, with a `ValueError`, or, on a text that nests too deeply, with a
-- `RecursionError`.
pub data Loaded : Type 0 where
  loaded : Json → Loaded
  invalid_json : Loaded
  too_deep : Loaded

-- What the cursors use of the standard library. Elsewhere a `ValueError` is `none`.
pub record Codec : Type 0 where
  -- `json.dumps(j, separators=(",", ":")).encode("utf-8")` and `json.loads`
  pub dumps : Json → List ℕ
  pub loads : List ℕ → Loaded
  -- `base64.urlsafe_b64encode` and `base64.urlsafe_b64decode`
  pub b64encode : List ℕ → Text
  pub b64decode : Text → Option (List ℕ)
  -- `isoformat` and `fromisoformat` of `date` or of `datetime`
  pub isoformat : ℕ → Text
  pub fromisoformat : Text → Option ℕ
  -- `str(uuid)` and `UUID(s)`
  pub str_uuid : ℕ → Text
  pub parse_uuid : Text → Option ℕ

-- `payload.get(key)`
unfoldable pub get : Text → Fields → Json
get key end = null
get key (field k v fields) = if text_eq k key then v else get key fields

-- `payload.get("v") != _CURSOR_VERSION`, for the version 1: `True` and `1.0` equal 1.
unfoldable pub is_version : Json → Bool
is_version (boolean b) = b
is_version (integer n) = n == 1
is_version one_float = true
is_version _ = false

-- `.rstrip(b"=")`
unfoldable pub rstrip_pad : Text → Text
rstrip_pad [] = []
rstrip_pad (c ∷ t) = let rest = rstrip_pad t in if c == b'=' && is_empty rest then [] else c ∷ rest

abbrev pub replicate : ℕ → ℕ → Text
replicate zero c = []
replicate (suc n) c = c ∷ replicate n c

-- `"=" * (-len(cursor) % 4)`
unfoldable pub padding : Text → Text
padding cursor = replicate ((4 - length cursor % 4) % 4) b'='

unfoldable pub payload : Codec → (at_name : Text) → Key → Json
payload c at_name k = obj (
    field (codes "v") (integer 1)
      (field at_name (str (c.isoformat k.at)) (field (codes "id") (str (c.str_uuid k.id)) end)))

-- `encode_cursor` of the memory service, where `at_name` is "ed".
unfoldable pub encode_cursor : Codec → Text → Key → Text
unfolding payload rstrip_pad
encode_cursor c at_name k = rstrip_pad (c.b64encode (c.dumps (payload c at_name k)))

-- `json.loads(base64.urlsafe_b64decode(cursor + padding))`
load_raw : Codec → Option (List ℕ) → Loaded
load_raw c none = invalid_json
load_raw c (some raw) = c.loads raw

unfoldable pub load_cursor : Codec → Text → Loaded
unfolding padding load_raw
load_cursor c cursor = load_raw c (c.b64decode (cursor ++ padding cursor))

parse_fields : Option ℕ → Option ℕ → Result Key
parse_fields (some at) (some id) = ok (record { at = at; id = id })
parse_fields none id = err (memory_validation_error cursor_field_not_parsed)
parse_fields (some at) none = err (memory_validation_error cursor_field_not_parsed)

read_fields : Codec → Json → Json → Result Key
unfolding parse_fields
read_fields c (str at) (str id) = parse_fields (c.fromisoformat at) (c.parse_uuid id)
read_fields c (str at) _ = err (memory_validation_error cursor_missing_fields)
read_fields c _ _ = err (memory_validation_error cursor_missing_fields)

read_object : Codec → Text → Fields → Result Key
unfolding read_fields get is_version
read_object c at_name fields =
    if is_version (get (codes "v") fields)
    then read_fields c (get at_name fields) (get (codes "id") fields)
    else err (memory_validation_error unsupported_cursor_version)

read_payload : Codec → Text → Loaded → Result Key
unfolding read_object
read_payload c at_name (loaded (obj fields)) = read_object c at_name fields
read_payload c at_name invalid_json = err (memory_validation_error malformed_cursor)
read_payload c at_name too_deep = err recursion_error
read_payload c at_name (loaded j) = err (memory_validation_error malformed_cursor)

-- `decode_cursor` of the memory service.
unfoldable pub decode_cursor : Codec → Text → Text → Result Key
unfolding read_payload load_cursor
decode_cursor c at_name cursor = read_payload c at_name (load_cursor c cursor)

-- What the documentation of these functions says.
pub record IsCodec (c : Codec) : Type 0 where
  pub loads-dumps :
      (at_name at id : Text)
      → let j = obj (
          field
            (codes "v")
            (integer 1)
            (field at_name (str at) (field (codes "id") (str id) end))) in
        c.loads (c.dumps j) ≡ loaded j
  pub b64decode-b64encode : (raw : List ℕ) → c.b64decode (c.b64encode raw) ≡ some raw
  -- base64 comes in groups of four characters, of which fewer than four are padding
  pub in_groups : (raw : List ℕ) → length (c.b64encode raw) % 4 ≡ 0
  pub little_padding :
      (raw : List ℕ) → length (c.b64encode raw) < length (rstrip_pad (c.b64encode raw)) + 4
  pub fromisoformat-isoformat : (at : ℕ) → c.fromisoformat (c.isoformat at) ≡ some at
  pub parse_uuid-str_uuid : (id : ℕ) → c.parse_uuid (c.str_uuid id) ≡ some id
