-- ===== src/Paging/Order.antt =====
-- Sorting by a strict order, and how it meets a filter.
use me.Base.{
  ◌≡◌, refl, Bool, true, false, ◌||◌, List, [], ◌∷◌, arith, if◌then◌else◌, select, inl, inr,
  Bool-cases,
}
use me.Paging.{Key, newest_first, oldest_first, insert_row, order_by}

-- What the proofs need of an order; keys with different ids are comparable.
pub record IsStrict (before : Key → Key → Bool) : Type 0 where
  pub asym : (a b : Key) → before a b ≡ true → before b a ≡ false
  pub trans : (a b c : Key) → before a b ≡ true → before b c ≡ true → before a c ≡ true

newest_first-asym : (a b : Key) → newest_first a b ≡ true → newest_first b a ≡ false
unfolding newest_first
newest_first-asym a b h = ground arith

newest_first_trans :
    (a b c : Key) → newest_first a b ≡ true → newest_first b c ≡ true → newest_first a c ≡ true
unfolding newest_first
newest_first_trans a b c h k = ground arith

pub newest_first-IsStrict : IsStrict newest_first
newest_first-IsStrict = record { asym = newest_first-asym; trans = newest_first_trans }

oldest_first-asym : (a b : Key) → oldest_first a b ≡ true → oldest_first b a ≡ false
unfolding oldest_first
oldest_first-asym a b h = ground arith

oldest_first_trans :
    (a b c : Key) → oldest_first a b ≡ true → oldest_first b c ≡ true → oldest_first a c ≡ true
unfolding oldest_first
oldest_first_trans a b c h k = ground arith

pub oldest_first-IsStrict : IsStrict oldest_first
oldest_first-IsStrict = record { asym = oldest_first-asym; trans = oldest_first_trans }

module _ {A : Type 0} (key : A → Key) (before : Key → Key → Bool) where
  -- Every row of the list comes after the key.
  abbrev pub AllAfter : Key → List A → Type 0
  AllAfter k [] = Unit
  AllAfter k (y ∷ rows) = (before k (key y) ≡ true) × AllAfter k rows

  abbrev pub Sorted : List A → Type 0
  Sorted [] = Unit
  Sorted (x ∷ rows) = AllAfter (key x) rows × Sorted rows

  abbrev pub AllComparable : A → List A → Type 0
  AllComparable x [] = Unit
  AllComparable x (y ∷ rows) =
      ((before (key x) (key y) || before (key y) (key x)) ≡ true) × AllComparable x rows

  -- Any two rows of the table are in one order or the other.
  abbrev pub Comparable : List A → Type 0
  Comparable [] = Unit
  Comparable (x ∷ rows) = AllComparable x rows × Comparable rows

  AllComparable-select :
      (p : A → Bool) (x : A) (rows : List A)
      → AllComparable x rows
      → AllComparable x (select p rows)
  unfolding select
  AllComparable-select p x [] h = tt
  AllComparable-select p x (y ∷ rows) h = elim (Bool-cases (p y)) [
    | inl t ↦ rw t (h.0, AllComparable-select p x rows h.1)
    | inr f ↦ rw f (AllComparable-select p x rows h.1)
  ]

  pub Comparable-select :
      (p : A → Bool) (rows : List A) → Comparable rows → Comparable (select p rows)
  unfolding select
  Comparable-select p [] h = tt
  Comparable-select p (y ∷ rows) h = elim (Bool-cases (p y)) [
    | inl t ↦ rw t (AllComparable-select p y rows h.0, Comparable-select p rows h.1)
    | inr f ↦ rw f (Comparable-select p rows h.1)
  ]

  AllComparable-insert_row :
      (x y : A) (rows : List A)
      → ((before (key y) (key x) || before (key x) (key y)) ≡ true)
      → AllComparable y rows
      → AllComparable y (insert_row key before x rows)
  unfolding insert_row
  AllComparable-insert_row x y [] c h = (c, tt)
  AllComparable-insert_row x y (z ∷ rows) c h = elim (Bool-cases (before (key x) (key z))) [
    | inl t ↦ rw t (c, h)
    | inr f ↦ rw f (h.0, AllComparable-insert_row x y rows c h.1)
  ]

  AllComparable-order_by :
      (x : A) (rows : List A) → AllComparable x rows → AllComparable x (order_by key before rows)
  unfolding order_by
  AllComparable-order_by x [] h = tt
  AllComparable-order_by x (y ∷ rows) h =
      AllComparable-insert_row y x (order_by key before rows) h.0
        (AllComparable-order_by x rows h.1)

  AllAfter-insert_row :
      (k : Key) (x : A) (rows : List A)
      → before k (key x) ≡ true
      → AllAfter k rows
      → AllAfter k (insert_row key before x rows)
  unfolding insert_row
  AllAfter-insert_row k x [] b h = (b, tt)
  AllAfter-insert_row k x (y ∷ rows) b h = elim (Bool-cases (before (key x) (key y))) [
    | inl t ↦ rw t (b, h)
    | inr f ↦ rw f (h.0, AllAfter-insert_row k x rows b h.1)
  ]

  pub AllAfter-select :
      (p : A → Bool) (k : Key) (rows : List A) → AllAfter k rows → AllAfter k (select p rows)
  unfolding select
  AllAfter-select p k [] h = tt
  AllAfter-select p k (y ∷ rows) h = elim (Bool-cases (p y)) [
    | inl t ↦ rw t (h.0, AllAfter-select p k rows h.1)
    | inr f ↦ rw f (AllAfter-select p k rows h.1)
  ]

  pub Sorted-select : (p : A → Bool) (rows : List A) → Sorted rows → Sorted (select p rows)
  unfolding select
  Sorted-select p [] h = tt
  Sorted-select p (y ∷ rows) h = elim (Bool-cases (p y)) [
    | inl t ↦ rw t (AllAfter-select p (key y) rows h.0, Sorted-select p rows h.1)
    | inr f ↦ rw f (Sorted-select p rows h.1)
  ]

  module _ (strict : IsStrict before) where
    AllAfter-trans :
        (a b : Key) (rows : List A) → before a b ≡ true → AllAfter b rows → AllAfter a rows
    AllAfter-trans a b [] h k = tt
    AllAfter-trans a b (y ∷ rows) h k =
        (strict.trans a b (key y) h k.0, AllAfter-trans a b rows h k.1)

    Sorted-insert_row :
        (x : A) (rows : List A)
        → AllComparable x rows
        → Sorted rows
        → Sorted (insert_row key before x rows)
    unfolding insert_row
    Sorted-insert_row x [] c s = (tt, tt)
    Sorted-insert_row x (y ∷ rows) c s = elim (Bool-cases (before (key x) (key y))) [
      | inl t ↦ rw t ((t, AllAfter-trans (key x) (key y) rows t s.0), s)
      | inr f ↦
          rw f (
            AllAfter-insert_row (key y) x rows (ground arith) s.0,
            Sorted-insert_row x rows c.1 s.1,
          )
    ]

    pub Sorted-order_by : (rows : List A) → Comparable rows → Sorted (order_by key before rows)
    unfolding order_by
    Sorted-order_by [] c = tt
    Sorted-order_by (x ∷ rows) c =
        Sorted-insert_row x (order_by key before rows) (AllComparable-order_by x rows c.0)
          (Sorted-order_by rows c.1)

    insert_row_first :
        (x : A) (rows : List A) → AllAfter (key x) rows → insert_row key before x rows ≡ x ∷ rows
    unfolding insert_row
    insert_row_first x [] h = refl
    insert_row_first x (y ∷ rows) h = ground arith

    select-insert_row :
        (p : A → Bool) (x : A) (rows : List A)
        → Sorted rows
        → select p (insert_row key before x rows)
          ≡ (if p x then insert_row key before x (select p rows) else select p rows)
    unfolding select insert_row
    select-insert_row p x [] s = ground arith
    select-insert_row p x (y ∷ rows) s = elim (Bool-cases (before (key x) (key y))) [
      | inl t ↦
          let first : insert_row key before x (select p (y ∷ rows)) ≡ x ∷ select p (y ∷ rows) =
            insert_row_first x _ (
              AllAfter-select p (key x) (y ∷ rows)
                (t, AllAfter-trans (key x) (key y) rows t s.0)) in
          ground (arith, first)
      | inr f ↦ ground (arith, select-insert_row p x rows s.1)
    ]

    -- Filtering and sorting commute.
    pub order_by-select :
        (p : A → Bool) (rows : List A)
        → Comparable rows
        → order_by key before (select p rows) ≡ select p (order_by key before rows)
    unfolding select order_by
    order_by-select p [] c = refl
    order_by-select p (x ∷ rows) c = ground (
      arith,
      select-insert_row p x (order_by key before rows) (Sorted-order_by rows c.1),
      order_by-select p rows c.1,
    )
