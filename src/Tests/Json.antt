-- ===== src/Tests/Json.antt =====
-- A codec that has the documented behaviour which the cursors rely on.
use me.Base.{
  ℕ, ◌+◌, ◌-◌, ◌*◌, ◌≡◌, refl, ap, ◌∙◌, Option, none, some, List, [], ◌∷◌, ◌++◌, arith, Text, codes,
  length, take, drop,
}
use me.Cursor.{
  Json, Loaded, loaded, too_deep, str, integer, obj, field, end, Codec, IsCodec, rstrip_pad,
}

-- A payload is written as two lengths and three texts.
abbrev write : Json → List ℕ
write (obj (field v version (field at_name (str at) (field id_name (str id) end)))) =
    length at_name ∷ length at ∷ at_name ++ (at ++ id)
write j = []

abbrev cursor_payload : (at_name at id : Text) → Json
cursor_payload at_name at id =
    obj (field (codes "v") (integer 1) (field at_name (str at) (field (codes "id") (str id) end)))

abbrev read_texts : ℕ → ℕ → Text → Json
read_texts m n t = cursor_payload (take m t) (take n (drop m t)) (drop n (drop m t))

abbrev read : List ℕ → Loaded
read (m ∷ n ∷ t) = loaded (read_texts m n t)
read t = too_deep

-- Each byte is written as four characters.
abbrev quadruple : List ℕ → Text
quadruple [] = []
quadruple (b ∷ raw) = 65 ∷ 65 ∷ 65 ∷ (b + 65) ∷ quadruple raw

abbrev unquadruple : Text → List ℕ
unquadruple (a ∷ b ∷ c ∷ d ∷ t) = (d - 65) ∷ unquadruple t
unquadruple t = []

abbrev first : Text → Option ℕ
first [] = none
first (n ∷ t) = some n

abbrev pub codec : Codec
codec = record {
  dumps = write;
  loads = read;
  b64encode = quadruple;
  b64decode = λ t. some (unquadruple t);
  isoformat = λ n. n ∷ [];
  fromisoformat = first;
  str_uuid = λ n. n ∷ [];
  parse_uuid = first;
}

take-append : (xs ys : Text) → take (length xs) (xs ++ ys) ≡ xs
take-append [] ys = refl
take-append (x ∷ xs) ys = ap (◌∷◌ x) (take-append xs ys)

drop-append : (xs ys : Text) → drop (length xs) (xs ++ ys) ≡ ys
drop-append [] ys = refl
drop-append (x ∷ xs) ys = drop-append xs ys

payload_same :
    (a b c a' b' c' : Text)
    → a ≡ a'
    → b ≡ b'
    → c ≡ c'
    → cursor_payload a b c ≡ cursor_payload a' b' c'
payload_same a b c a' b' c' e f g = cc

read-write :
    (at_name at id : Text)
    → read (write (cursor_payload at_name at id)) ≡ loaded (cursor_payload at_name at id)
read-write at_name at id =
    let rest = drop-append at_name (at ++ id) in
    ap loaded (
      payload_same _ _ _ at_name at id (take-append at_name (at ++ id))
        (ap (take (length at)) rest ∙ take-append at id)
        (ap (drop (length at)) rest ∙ drop-append at id))

unquadruple-quadruple : (raw : List ℕ) → unquadruple (quadruple raw) ≡ raw
unquadruple-quadruple [] = refl
unquadruple-quadruple (b ∷ raw) =
    let same : (b + 65) - 65 ≡ b = omega arith in rw (same, unquadruple-quadruple raw) refl

length-quadruple : (raw : List ℕ) → length (quadruple raw) ≡ 4 * length raw
length-quadruple [] = refl
length-quadruple (b ∷ raw) = omega (arith, length-quadruple raw)

rstrip_pad-quadruple : (raw : List ℕ) → rstrip_pad (quadruple raw) ≡ quadruple raw
unfolding rstrip_pad
rstrip_pad-quadruple [] = refl
rstrip_pad-quadruple (b ∷ raw) = ground (arith, rstrip_pad-quadruple raw)

pub codec-IsCodec : IsCodec codec
codec-IsCodec = record {
  loads-dumps = read-write;
  b64decode-b64encode = λ raw. ap some (unquadruple-quadruple raw);
  in_groups = λ raw. omega (arith, length-quadruple raw);
  little_padding = λ raw. rw (rstrip_pad-quadruple raw) (omega arith);
  fromisoformat-isoformat = λ at. refl;
  parse_uuid-str_uuid = λ id. refl;
}
