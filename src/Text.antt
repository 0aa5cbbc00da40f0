-- ===== src/Text.antt =====
-- What the program uses of Python's `str`: `strip`, `encode("utf-8")`, and the first part of
-- `split("\n\n", 1)`. A text is the list of its code points.
use me.Base.{
  ℕ, ◌+◌, ◌/◌, ◌%◌, ◌≡◌, refl, Bool, false, ◌&&◌, ◌||◌, List, [], ◌∷◌, ◌++◌, arith, ltb, leb, ◌==◌,
  if◌then◌else◌, Text, is_empty, inl, inr, Bool-cases,
}

-- The code points that `str.strip()` removes: those of `str.isspace`.
unfoldable pub is_space : ℕ → Bool
is_space c =
    (leb 9 c && leb c 13)
    || (leb 28 c && leb c 32)
    || c == 0x85
    || c == 0xa0
    || c == 0x1680
    || (leb 0x2000 c && leb c 0x200a)
    || c == 0x2028
    || c == 0x2029
    || c == 0x202f
    || c == 0x205f
    || c == 0x3000

unfoldable pub lstrip : Text → Text
lstrip [] = []
lstrip (c ∷ t) = if is_space c then lstrip t else c ∷ t

unfoldable pub rstrip : Text → Text
rstrip [] = []
rstrip (c ∷ t) = let rest = rstrip t in if is_space c && is_empty rest then [] else c ∷ rest

unfoldable pub strip : Text → Text
unfolding lstrip rstrip is_space
strip t = rstrip (lstrip t)

rstrip-rstrip : (t : Text) → rstrip (rstrip t) ≡ rstrip t
unfolding rstrip
rstrip-rstrip [] = refl
rstrip-rstrip (c ∷ t) = ground (arith, rstrip-rstrip t)

lstrip_kept : (c : ℕ) (t : Text) → is_space c ≡ false → lstrip (c ∷ t) ≡ c ∷ t
unfolding lstrip
lstrip_kept c t h = ground arith

rstrip_kept : (c : ℕ) (t : Text) → is_space c ≡ false → rstrip (c ∷ t) ≡ c ∷ rstrip t
unfolding rstrip
rstrip_kept c t h = ground arith

strip_parts : (t : Text) → lstrip (rstrip (lstrip t)) ≡ rstrip (lstrip t)
strip_parts [] = unfold lstrip rstrip in refl
strip_parts (c ∷ t) = elim (Bool-cases (is_space c)) [
  | inl space ↦
      let e : lstrip (c ∷ t) ≡ lstrip t = unfold lstrip in ground arith in rw e (strip_parts t)
  | inr kept ↦ rw (lstrip_kept c t kept, rstrip_kept c t kept) (lstrip_kept c (rstrip t) kept)
]

-- A stripped text is stripped.
pub strip-strip : (t : Text) → strip (strip t) ≡ strip t
strip-strip t =
    let same : rstrip (lstrip (rstrip (lstrip t))) ≡ rstrip (lstrip t) =
      rw strip_parts (rstrip-rstrip (lstrip t)) in
    unfold strip in same

-- `encode("utf-8")` of one code point, and of a text.
unfoldable pub utf8_char : ℕ → List ℕ
utf8_char c =
    if ltb c 0x80
    then c ∷ []
    else if ltb c 0x800
    then (0xc0 + c / 64) ∷ (0x80 + c % 64) ∷ []
    else if ltb c 0x10000
    then (0xe0 + c / 4096) ∷ (0x80 + c / 64 % 64) ∷ (0x80 + c % 64) ∷ []
    else (0xf0 + c / 0x40000) ∷ (0x80 + c / 4096 % 64) ∷ (0x80 + c / 64 % 64) ∷ (0x80 + c % 64) ∷ []

unfoldable pub utf8 : Text → List ℕ
unfolding utf8_char
utf8 [] = []
utf8 (c ∷ t) = utf8_char c ++ utf8 t

-- `text.split("\n\n", 1)[0]`
unfoldable pub first_paragraph : Text → Text
first_paragraph [] = []
first_paragraph (c ∷ []) = c ∷ []
first_paragraph (c ∷ d ∷ t) =
    let rest = first_paragraph (d ∷ t) in if c == 10 && d == 10 then [] else c ∷ rest
