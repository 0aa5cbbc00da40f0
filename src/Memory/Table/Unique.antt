-- ===== src/Memory/Table/Unique.antt =====
-- The two unique indices of the table `memories`, as a property of its rows, and what keeps it.
use me.Base.{
  ◌≡◌, refl, Bool, true, false, ◌||◌, some, List, [], ◌∷◌, arith, text_eq_iff, is_none, any, find,
  inl, inr, Bool-cases,
}
use me.Memory.{Memory}
use me.Memory.Table.{same_id, live_clash, other_clash, put_row}

-- Two rows that no table holds together.
unfoldable pub clash : Memory → Memory → Bool
unfolding live_clash
clash a b = same_id a b || live_clash a b

abbrev pub Unique : List Memory → Type 0
Unique [] = Unit
Unique (x ∷ rows) = (any (clash x) rows ≡ false) × Unique rows

-- A row that claims no index entry which the old one does not.
pub record SameKey (old new : Memory) : Type 0 where
  pub same_row : new.id ≡ old.id
  pub same_user : new.user_id ≡ old.user_id
  pub same_hash : new.content_hash ≡ old.content_hash
  pub not_revived : is_none new.deleted_at ≡ true → is_none old.deleted_at ≡ true

live_clash_comm : (a b : Memory) → live_clash a b ≡ live_clash b a
unfolding live_clash
live_clash_comm a b =
    ground
      (arith, text_eq_iff a.content_hash b.content_hash, text_eq_iff b.content_hash a.content_hash)

other_clash-SameKey :
    (old new y : Memory) → SameKey old new → other_clash old y ≡ false → other_clash new y ≡ false
unfolding live_clash
other_clash-SameKey old new y k h = ground (
  arith,
  text_eq_iff old.content_hash y.content_hash,
  text_eq_iff new.content_hash y.content_hash,
)

-- If the old row clashes with no other, the new one does not.
pub any-SameKey :
    (old new : Memory) (rows : List Memory)
    → SameKey old new
    → any (other_clash old) rows ≡ false
    → any (other_clash new) rows ≡ false
unfolding any
any-SameKey old new [] k h = refl
any-SameKey old new (y ∷ rows) k h =
    ground (arith, other_clash-SameKey old new y k, any-SameKey old new rows k)

pub any-find :
    (q p : Memory → Bool) (rows : List Memory) (a : Memory)
    → any q rows ≡ false
    → find p rows ≡ some a
    → q a ≡ false
unfolding any find
any-find q p [] a h e = ground arith
any-find q p (x ∷ rows) a h e = elim (Bool-cases (p x)) [
  | inl t ↦ ground arith
  | inr f ↦ any-find q p rows a (ground arith) (ground arith)
]

other_clash-clash :
    (x : Memory) (rows : List Memory)
    → any (clash x) rows ≡ false
    → any (other_clash x) rows ≡ false
unfolding any clash
other_clash-clash x [] h = refl
other_clash-clash x (y ∷ rows) h = ground (arith, other_clash-clash x rows)

other_clash_comm : (a b : Memory) → clash b a ≡ false → other_clash a b ≡ false
unfolding clash
other_clash_comm a b h = ground (arith, live_clash_comm a b)

-- In a table with unique keys, a row that is there clashes with no other.
pub any-Unique :
    (p : Memory → Bool) (rows : List Memory) (row : Memory)
    → Unique rows
    → find p rows ≡ some row
    → any (other_clash row) rows ≡ false
unfolding any find
any-Unique p [] row u e = refl
any-Unique p (x ∷ rows) row u e = elim (Bool-cases (p x)) [
  | inl t ↦ ground (arith, other_clash-clash x rows u.0)
  | inr f ↦
      let e' : find p rows ≡ some row = ground arith in
      ground (
        arith,
        other_clash_comm row x (any-find (clash x) p rows row u.0 e'),
        any-Unique p rows row u.1 e',
      )
]

clash_moved :
    (x r : Memory) (rows : List Memory)
    → x.id ≡ r.id
    → any (clash x) rows ≡ false
    → any (other_clash r) rows ≡ false
    → any (clash r) rows ≡ false
unfolding any clash
clash_moved x r [] e h k = refl
clash_moved x r (y ∷ rows) e h k = ground (arith, clash_moved x r rows)

any-put_row :
    (x r : Memory) (rows : List Memory)
    → clash x r ≡ false
    → any (clash x) rows ≡ false
    → any (clash x) (put_row r rows) ≡ false
unfolding any put_row
any-put_row x r [] c h = refl
any-put_row x r (y ∷ rows) c h = ground (arith, any-put_row x r rows)

clash-other_clash :
    (x r : Memory) → (same_id x r) ≡ false → other_clash r x ≡ false → clash x r ≡ false
unfolding clash
clash-other_clash x r f h = ground (arith, live_clash_comm x r)

-- An UPDATE that violates no index keeps them.
pub put_row-Unique :
    (r : Memory) (rows : List Memory)
    → Unique rows
    → any (other_clash r) rows ≡ false
    → Unique (put_row r rows)
unfolding any put_row
put_row-Unique r [] u h = tt
put_row-Unique r (x ∷ rows) u h = elim (Bool-cases (same_id x r)) [
  | inl t ↦ rw t (clash_moved x r rows (ground arith) u.0 (ground arith), u.1)
  | inr f ↦ rw f (
    any-put_row x r rows (clash-other_clash x r f (ground arith)) u.0,
    put_row-Unique r rows u.1 (ground arith),
  )
]

-- An INSERT that violates no index keeps them.
pub insert-Unique :
    (r : Memory) (rows : List Memory)
    → any (live_clash r) rows ≡ false
    → any (same_id r) rows ≡ false
    → any (clash r) rows ≡ false
unfolding any clash
insert-Unique r [] h k = refl
insert-Unique r (y ∷ rows) h k = ground (arith, insert-Unique r rows)
