-- ===== src/Cursor/RoundTrip.antt =====
-- Decoding a cursor that was handed out gives the key that it was made from.
use me.Base.{
  ℕ, suc, ◌-◌, ◌+◌, ◌%◌, ◌<◌, ◌≤◌, ◌≡◌, refl, ap, ◌∙◌, true, false, [], ◌∷◌, ◌++◌, arith, ◌==◌,
  Text, codes, text_eq, text_eq_self, length, inl, inr, Bool-cases, is_empty, ◌&&◌,
}
use me.Errors.{ok}
use me.Paging.{Key}
use me.Cursor.{
  Codec, IsCodec, payload, rstrip_pad, replicate, padding, encode_cursor, load_cursor,
  decode_cursor, loaded,
}

length-rstrip_pad-le : (t : Text) → length (rstrip_pad t) ≤ length t
unfolding rstrip_pad
length-rstrip_pad-le [] = omega arith
length-rstrip_pad-le (c ∷ t) = ground (arith, length-rstrip_pad-le t)

rstrip_pad_kept :
    (c : ℕ) (t : Text)
    → (c == b'=' && is_empty (rstrip_pad t)) ≡ false
    → rstrip_pad (c ∷ t) ≡ c ∷ rstrip_pad t
unfolding rstrip_pad
rstrip_pad_kept c t h = ground arith

rstrip_pad_cut :
    (c : ℕ) (t : Text)
    → (c == b'=' && is_empty (rstrip_pad t)) ≡ true
    → (rstrip_pad (c ∷ t) ≡ []) × (rstrip_pad t ≡ []) × (c ≡ b'=')
unfolding rstrip_pad
rstrip_pad_cut c t h = ground arith

-- What `rstrip` takes off is padding.
rstrip_pad-replicate :
    (t : Text) → rstrip_pad t ++ replicate (length t - length (rstrip_pad t)) b'=' ≡ t
rstrip_pad-replicate [] = unfold rstrip_pad in refl
rstrip_pad-replicate (c ∷ t) = elim (Bool-cases (c == b'=' && is_empty (rstrip_pad t))) [
  | inl cut ↦
      let (whole, part, same) = rstrip_pad_cut c t cut in
      let count : suc (length t) - 0 ≡ suc (length t - 0) = omega arith in
      rw (whole, count, same) (ap (◌∷◌ b'=') (rw part at (rstrip_pad-replicate t)))
  | inr kept ↦
      let count : suc (length t) - suc (length (rstrip_pad t)) ≡ length t - length (rstrip_pad t) =
        omega arith in
      rw (rstrip_pad_kept c t kept, count) (ap (◌∷◌ c) (rstrip_pad-replicate t))
]

-- The padding that the decoder adds is the one that the encoder took off.
padding_restored :
    (t : Text)
    → length t % 4 ≡ 0
    → length t < length (rstrip_pad t) + 4
    → rstrip_pad t ++ padding (rstrip_pad t) ≡ t
unfolding padding
padding_restored t g l =
    ap (λ n. rstrip_pad t ++ replicate n b'=') (omega (arith, length-rstrip_pad-le t))
    ∙ rstrip_pad-replicate t

v_ne_id : text_eq (codes "v") (codes "id") ≡ false
unfolding text_eq
v_ne_id = refl

module _ (c : Codec) (lib : IsCodec c) (at_name : Text) (k : Key) where
  -- The decoder reads the payload back.
  pub load-encode : load_cursor c (encode_cursor c at_name k) ≡ loaded (payload c at_name k)
  unfolding load_cursor encode_cursor
  load-encode =
      let raw = c.dumps (payload c at_name k) in
      let t = c.b64encode raw in
      rw
        (
          padding_restored t (lib.in_groups raw) (lib.little_padding raw),
          lib.b64decode-b64encode raw,
        )
        (unfold payload in lib.loads-dumps at_name (c.isoformat k.at) (c.str_uuid k.id))

  -- With a codec that behaves as documented, and a field of the position named neither "v" nor "id",
  -- `decode_cursor` accepts what `encode_cursor` made of a key, and gives that key.
  pub decode-encode :
      text_eq (codes "v") at_name ≡ false
      → text_eq at_name (codes "id") ≡ false
      → decode_cursor c at_name (encode_cursor c at_name k) ≡ ok k
  unfolding decode_cursor
  decode-encode no_v no_id = rw load-encode (
      unfold payload in
      ground (
        arith,
        v_ne_id,
        text_eq_self (codes "v"),
        text_eq_self (codes "id"),
        text_eq_self at_name,
        lib.fromisoformat-isoformat k.at,
        lib.parse_uuid-str_uuid k.id,
      ))
