-- ===== src/Paging/Walk.antt =====
-- A client that follows the cursors sees every row once, in order.
use me.Base.{
  ℕ, zero, suc, ◌+◌, ◌-◌, ◌<◌, ◌≤◌, ◌≡◌, refl, sym, ap, ◌∙◌, Bool, true, false, ◌&&◌, Option, none,
  some, List, [], ◌∷◌, ◌++◌, arith, if◌then◌else◌, ltb, length, take, drop, get_elem?, select, inl,
  inr, Bool-cases, length-take-le, take-append-drop,
}
use mathlib.Core.List.{Perm}
use mathlib.Core.List.Perm
use me.Paging.{insert_row, Key, order_by, is_past, fetch, key_of, cut_page, get_page}
use me.Paging.Order.{
  IsStrict, AllAfter, Sorted, Comparable, Comparable-select, Sorted-select, Sorted-order_by,
  order_by-select,
}

take-take-suc : {A : Type 0} (n : ℕ) (rows : List A) → take n (take (suc n) rows) ≡ take n rows
take-take-suc zero rows = refl
take-take-suc (suc n) [] = refl
take-take-suc (suc n) (x ∷ rows) = ap (◌∷◌ x) (take-take-suc n rows)

get_elem?-take-suc :
    {A : Type 0} (n i : ℕ) (rows : List A) → i < n → get_elem? (take n rows) i ≡ get_elem? rows i
get_elem?-take-suc zero i rows h = elim h [ ]
get_elem?-take-suc (suc n) i [] h = refl
get_elem?-take-suc (suc n) zero (x ∷ rows) h = refl
get_elem?-take-suc (suc n) (suc i) (x ∷ rows) h = get_elem?-take-suc n i rows (omega arith)

length-take-suc :
    {A : Type 0} (n : ℕ) (rows : List A) → ltb n (length (take (suc n) rows)) ≡ ltb n (length rows)
length-take-suc zero [] = refl
length-take-suc zero (x ∷ rows) = ground arith
length-take-suc (suc n) [] = refl
length-take-suc (suc n) (x ∷ rows) = ground (arith, length-take-suc n rows)

take_all : {A : Type 0} (n : ℕ) (rows : List A) → length rows ≤ n → take (suc n) rows ≡ rows
take_all n [] h = refl
take_all zero (x ∷ rows) h = absurd (omega arith)
take_all (suc n) (x ∷ rows) h = ap (◌∷◌ x) (take_all n rows (omega arith))

length-select-le :
    {A : Type 0} (p : A → Bool) (rows : List A) → length (select p rows) ≤ length rows
unfolding select
length-select-le p [] = omega arith
length-select-le p (x ∷ rows) = ground (arith, length-select-le p rows)

select-select :
    {A : Type 0} (p q : A → Bool) (rows : List A)
    → select (λ r. p r && q r) rows ≡ select q (select p rows)
unfolding select
select-select p q [] = refl
select-select p q (x ∷ rows) = ground (arith, select-select p q rows)

select_all : {A : Type 0} (rows : List A) → select (λ r. true) rows ≡ rows
unfolding select
select_all [] = refl
select_all (x ∷ rows) = ap (◌∷◌ x) (select_all rows)

length-drop-lt :
    {A : Type 0} (n : ℕ) (rows : List A)
    → n < length rows
    → length (drop (suc n) rows) < length rows
length-drop-lt n [] h = elim h [ ]
length-drop-lt zero (x ∷ rows) h = omega arith
length-drop-lt (suc n) (x ∷ rows) h = omega (arith, length-drop-lt n rows (omega arith))

cut_shorter :
    {A : Type 0} (n : ℕ) (rows : List A)
    → 0 < n
    → n < length rows
    → length (drop n rows) < length rows
cut_shorter zero rows p h = elim p [ ]
cut_shorter (suc n) rows p h = length-drop-lt n rows (omega arith)

get_elem?-some :
    {A : Type 0} (n : ℕ) (rows : List A) → n < length rows → (z : A) × (get_elem? rows n ≡ some z)
get_elem?-some n [] h = elim h [ ]
get_elem?-some zero (x ∷ rows) h = (x, refl)
get_elem?-some (suc n) (x ∷ rows) h = get_elem?-some n rows (omega arith)

get_elem?-select :
    {A : Type 0} (p : A → Bool) (n : ℕ) (rows : List A) (z : A)
    → get_elem? (select p rows) n ≡ some z
    → p z ≡ true
unfolding select
get_elem?-select p n [] z e = ground arith
get_elem?-select p zero (x ∷ rows) z e = elim (Bool-cases (p x)) [
  | inl t ↦ ground arith
  | inr f ↦ get_elem?-select p zero rows z (ground arith)
]
get_elem?-select p (suc n) (x ∷ rows) z e = elim (Bool-cases (p x)) [
  | inl t ↦ get_elem?-select p n rows z (ground arith)
  | inr f ↦ get_elem?-select p (suc n) rows z (ground arith)
]

module _ {A : Type 0} (key : A → Key) (before : Key → Key → Bool) where
  -- The client: it asks for the next page until there is no cursor.
  unfoldable pub follow : (Option Key → List A) → List A × Option Key → List A
  follow next (items, none) = items
  follow next (items, some c) = items ++ next (some c)

  unfoldable pub walk : (fuel : ℕ) → (A → Bool) → Option Key → ℕ → List A → List A
  unfolding follow
  walk zero p cursor limit rows = []
  walk (suc fuel) p cursor limit rows =
      follow (λ c. walk fuel p c limit rows) (get_page key before p cursor limit rows)

module _ {A : Type 0} (key : A → Key) (before : Key → Key → Bool) (strict : IsStrict before) where
  select_after :
      (k : Key) (rows : List A)
      → AllAfter key before k rows
      → select (λ r. before k (key r)) rows ≡ rows
  unfolding select
  select_after k [] h = refl
  select_after k (x ∷ rows) h = ground (arith, select_after k rows h.1)

  AllAfter-get_elem? :
      (k : Key) (n : ℕ) (rows : List A) {z : A}
      → AllAfter key before k rows
      → get_elem? rows n ≡ some z
      → before k (key z) ≡ true
  AllAfter-get_elem? k n [] h e = ground arith
  AllAfter-get_elem? k zero (x ∷ rows) {z} h e = let same : x ≡ z = ground arith in ground arith
  AllAfter-get_elem? k (suc n) (x ∷ rows) h e = AllAfter-get_elem? k n rows h.1 e

  select_first :
      (x : A) (rows : List A)
      → AllAfter key before (key x) rows
      → select (λ r. before (key x) (key r)) (x ∷ rows) ≡ rows
  unfolding select
  select_first x rows h = ground (arith, strict.asym (key x) (key x), select_after (key x) rows h)

  select_skip :
      (k : Key) (x : A) (rows : List A)
      → before k (key x) ≡ false
      → select (λ r. before k (key r)) (x ∷ rows) ≡ select (λ r. before k (key r)) rows
  unfolding select
  select_skip k x rows h = ground arith

  -- In a sorted list, what comes after the n-th row is what is left without the rows up to it.
  select-drop :
      (n : ℕ) (rows : List A) {z : A}
      → Sorted key before rows
      → get_elem? rows n ≡ some z
      → select (λ r. before (key z) (key r)) rows ≡ drop (suc n) rows
  select-drop n [] s e = ground arith
  select-drop zero (x ∷ rows) {z} s e =
      let same : x ≡ z = ground arith in rw (← same) (select_first x rows s.0)
  select-drop (suc n) (x ∷ rows) {z} s e =
      select_skip (key z) x rows
        (strict.asym (key x) (key z) (AllAfter-get_elem? (key x) n rows s.0 e))
      ∙ select-drop n rows s.1 e

  -- The rows behind a cursor, in order.
  abbrev rest : Option Key → List A → List A
  rest cursor rows = select (is_past key before cursor) rows

  -- A cursor that lies behind another one leaves a part of what that one leaves.
  rest-rest :
      (cursor : Option Key) (z : A) (rows : List A)
      → is_past key before cursor z ≡ true
      → rest (some (key z)) (rest cursor rows) ≡ rest (some (key z)) rows
  unfolding select
  rest-rest cursor z [] h = refl
  rest-rest none z (x ∷ rows) h = ground (arith, rest-rest none z rows h)
  rest-rest (some c) z (x ∷ rows) h =
      ground (arith, strict.trans c (key z) (key x) h, rest-rest (some c) z rows h)

  -- What `get_page` returns, in terms of the rows that are left.
  cut_page_rest :
      (limit : ℕ) (left : List A)
      → cut_page key before limit (take (limit + 1) left) ≡ (
          if ltb limit (length left)
          then (take limit left, key_of key before (get_elem? left (limit - 1)))
          else (left, none))
  unfolding cut_page
  cut_page_rest limit left =
      let one : limit + 1 ≡ suc limit = omega arith in
      rw one (elim (Bool-cases (ltb limit (length left))) [
        | inl more ↦
            let more' = length-take-suc limit left ∙ more in
            ground (
              arith,
              take-take-suc limit left,
              get_elem?-take-suc (suc limit) (limit - 1) left (omega arith),
            )
        | inr last ↦ ground (arith, length-take-suc limit left, take_all limit left)
      ])

  get_page-rest :
      (p : A → Bool) (cursor : Option Key) (limit : ℕ) (rows : List A)
      → Comparable key before rows
      → get_page key before p cursor limit rows
        ≡ cut_page key before limit
            (take (limit + 1) (rest cursor (order_by key before (select p rows))))
  unfolding get_page fetch
  get_page-rest p cursor limit rows c =
      ap (λ l. cut_page key before limit (take (limit + 1) l))
        (ap (order_by key before) (select-select p (is_past key before cursor) rows)
          ∙ order_by-select key before strict (is_past key before cursor) (select p rows)
              (Comparable-select key before p rows c))

  walk-rest :
      (fuel : ℕ) (p : A → Bool) (cursor : Option Key) (limit : ℕ) (rows : List A)
      → 0 < limit
      → Comparable key before rows
      → length (rest cursor (order_by key before (select p rows))) < fuel
      → walk key before fuel p cursor limit rows ≡ rest cursor (order_by key before (select p rows))
  unfolding walk
  walk-rest zero p cursor limit rows pos c h = elim h [ ]
  walk-rest (suc fuel) p cursor limit rows pos c h =
      let sorted = order_by key before (select p rows) in
      let left = rest cursor sorted in
      let s : Sorted key before left = Sorted-select key before (is_past key before cursor) sorted (
        Sorted-order_by key before strict (select p rows)
          (Comparable-select key before p rows c)) in
      rw (get_page-rest p cursor limit rows c, cut_page_rest limit left)
        (elim (Bool-cases (ltb limit (length left))) [
          | inr last ↦ rw last
          | inl more ↦
              let (z, found) = get_elem?-some (limit - 1) left (ground arith) in
              let step : rest (some (key z)) sorted ≡ drop limit left =
                sym (
                  rest-rest cursor z sorted
                    (get_elem?-select (is_past key before cursor) (limit - 1) sorted z found))
                ∙ select-drop (limit - 1) left s found
                ∙ ap (λ n. drop n left) {x = suc (limit - 1)} (omega arith) in
              let shorter : length (rest (some (key z)) sorted) < length left =
                rw step (cut_shorter limit left pos (ground arith)) in
              rw (more, found)
                (ap (λ l. take limit left ++ l)
                    (walk-rest fuel p (some (key z)) limit rows pos c (omega arith) ∙ step)
                  ∙ take-append-drop limit left)
        ])

  length-insert_row :
      (x : A) (rows : List A) → length (insert_row key before x rows) ≡ suc (length rows)
  unfolding insert_row
  length-insert_row x [] = refl
  length-insert_row x (y ∷ rows) = ground (arith, length-insert_row x rows)

  length-order_by : (rows : List A) → length (order_by key before rows) ≡ length rows
  unfolding order_by
  length-order_by [] = refl
  length-order_by (x ∷ rows) =
      length-insert_row x (order_by key before rows) ∙ ap suc (length-order_by rows)

  insert_row-perm : (x : A) (rows : List A) → Perm (insert_row key before x rows) (x ∷ rows)
  unfolding insert_row
  insert_row-perm x [] = Perm.refl (x ∷ [])
  insert_row-perm x (y ∷ rows) = elim (Bool-cases (before (key x) (key y))) [
    | inl t ↦ rw t (Perm.refl (x ∷ y ∷ rows))
    | inr f ↦ rw f (Perm.trans (Perm.cons y (insert_row-perm x rows)) (Perm.swap x y rows))
  ]

  pub order_by-perm : (rows : List A) → Perm (order_by key before rows) rows
  unfolding order_by
  order_by-perm [] = Perm.refl []
  order_by-perm (x ∷ rows) =
      Perm.trans (insert_row-perm x (order_by key before rows)) (Perm.cons x (order_by-perm rows))

  -- A client that follows the cursors from the start gets the rows of the filter, each as often as
  -- it stands in the table, in the requested order, whatever the page size.
  pub walk_complete :
      (fuel : ℕ) (p : A → Bool) (limit : ℕ) (rows : List A)
      → 0 < limit
      → Comparable key before rows
      → length rows < fuel
      → Perm (walk key before fuel p none limit rows) (select p rows)
        × Sorted key before (walk key before fuel p none limit rows)
  walk_complete fuel p limit rows pos c h =
      let short = length-select-le p rows in
      let all = select_all (order_by key before (select p rows)) in
      let same : walk key before fuel p none limit rows ≡ order_by key before (select p rows) =
        walk-rest fuel p none limit rows pos c
          (rw all (omega (arith, length-order_by (select p rows))))
        ∙ all in
      rw same (
        order_by-perm (select p rows),
        Sorted-order_by key before strict (select p rows) (Comparable-select key before p rows c),
      )

  -- A page has at most `limit` rows.
  pub length-get_page-le :
      (p : A → Bool) (cursor : Option Key) (limit : ℕ) (rows : List A)
      → length (get_page key before p cursor limit rows).0 ≤ limit
  unfolding get_page cut_page
  length-get_page-le p cursor limit rows =
      ground (arith, length-take-le limit (fetch key before p cursor limit rows))
