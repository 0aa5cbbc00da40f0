-- ===== src/Memory/Owner.antt =====
-- A request of one user leaves the rows of every other user as they are, and finds none of them.
use me.Base.{
  ℕ, ◌≡◌, ◌≢◌, refl, Bool, true, false, none, some, List, [], ◌∷◌, arith, ◌==◌, is_some, any, find,
  select, inl, inr, Bool-cases,
}
use me.Memory.{Memory}
use me.Memory.Table.{put_row, same_id, is_owned, find_owned, find_owned_live}
use me.Memory.Table.Unique.{Unique, clash, SameKey, any-find}

-- The rows of one user, deleted or not.
abbrev pub rows_of : ℕ → List Memory → List Memory
rows_of v = select (λ r. r.user_id == v)

clash_id : (x y : Memory) → clash x y ≡ false → same_id x y ≡ false
unfolding clash
clash_id x y h = ground arith

-- Writing back a row of one user leaves the rows of the others.
pub rows_of-put_row :
    (p : Memory → Bool) (old new : Memory) (v : ℕ) (rows : List Memory)
    → Unique rows
    → find p rows ≡ some old
    → new.id ≡ old.id
    → new.user_id ≡ old.user_id
    → v ≢ old.user_id
    → rows_of v (put_row new rows) ≡ rows_of v rows
unfolding find select put_row
rows_of-put_row p old new v [] u e i k h = refl
rows_of-put_row p old new v (x ∷ rows) u e i k h = elim (Bool-cases (p x)) [
  | inl t ↦ ground arith
  | inr f ↦
      let e' : find p rows ≡ some old = ground arith in
      ground (
        arith,
        clash_id x old (any-find (clash x) p rows old u.0 e'),
        rows_of-put_row p old new v rows u.1 e' i k h,
      )
]

-- A written row is found by its key.
pub find_owned-put_row :
    (user_id memory_id : ℕ) (new : Memory) (rows : List Memory) {old : Memory}
    → Unique rows
    → find_owned user_id memory_id rows ≡ some old
    → SameKey old new
    → find_owned user_id memory_id (put_row new rows) ≡ some new
unfolding find put_row
find_owned-put_row user_id memory_id new [] u e k = ground arith
find_owned-put_row user_id memory_id new (x ∷ rows) {old} u e k =
    elim (Bool-cases (is_owned user_id memory_id x)) [
      | inl t ↦ ground arith
      | inr f ↦
          let e' : find_owned user_id memory_id rows ≡ some old = ground arith in
          ground (
            arith,
            clash_id x old (any-find (clash x) (is_owned user_id memory_id) rows old u.0 e'),
            find_owned-put_row user_id memory_id new rows u.1 e' k,
          )
    ]

no_other_row :
    (user_id memory_id : ℕ) (x : Memory) (rows : List Memory)
    → x.id ≡ memory_id
    → any (clash x) rows ≡ false
    → find_owned_live user_id memory_id rows ≡ none
unfolding any find clash
no_other_row user_id memory_id x [] e h = refl
no_other_row user_id memory_id x (y ∷ rows) e h =
    ground (arith, no_other_row user_id memory_id x rows)

-- A row that is written as deleted is not found among the live ones.
pub find_owned_live-put_row :
    (user_id memory_id : ℕ) (new : Memory) (rows : List Memory) {old : Memory}
    → Unique rows
    → find_owned user_id memory_id rows ≡ some old
    → SameKey old new
    → is_some new.deleted_at ≡ true
    → find_owned_live user_id memory_id (put_row new rows) ≡ none
unfolding find put_row
find_owned_live-put_row user_id memory_id new [] u e k d = refl
find_owned_live-put_row user_id memory_id new (x ∷ rows) {old} u e k d =
    elim (Bool-cases (is_owned user_id memory_id x)) [
      | inl t ↦ ground (arith, no_other_row user_id memory_id x rows (ground arith) u.0)
      | inr f ↦
          let e' : find_owned user_id memory_id rows ≡ some old = ground arith in
          ground (
            arith,
            clash_id x old (any-find (clash x) (is_owned user_id memory_id) rows old u.0 e'),
            find_owned_live-put_row user_id memory_id new rows u.1 e' k d,
          )
    ]

-- A deleted row that its key finds is not found among the live ones.
pub find_owned_live_dead :
    (user_id memory_id : ℕ) (rows : List Memory) {row : Memory}
    → Unique rows
    → find_owned user_id memory_id rows ≡ some row
    → is_some row.deleted_at ≡ true
    → find_owned_live user_id memory_id rows ≡ none
unfolding find
find_owned_live_dead user_id memory_id [] u e d = refl
find_owned_live_dead user_id memory_id (x ∷ rows) {row} u e d =
    elim (Bool-cases (is_owned user_id memory_id x)) [
      | inl t ↦ ground (arith, no_other_row user_id memory_id x rows (ground arith) u.0)
      | inr f ↦
          let e' : find_owned user_id memory_id rows ≡ some row = ground arith in
          ground (arith, find_owned_live_dead user_id memory_id rows u.1 e' d)
    ]
