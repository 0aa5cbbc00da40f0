-- ===== src/Paging.antt =====
-- Keyset pagination, as `list_memories`, `list_sessions` and `list_session_messages` have it: a
-- filter, an order on a pair of columns, a cursor on that pair, and `limit + 1` rows fetched.
pub mod Order
pub mod Walk
use me.Base.{
  ℕ, ◌+◌, ◌-◌, Bool, true, ◌&&◌, ◌||◌, Option, none, some, List, [], ◌∷◌, ltb, ◌==◌, if◌then◌else◌,
  length, take, get_elem?, select,
}

-- The columns that rows are ordered by: a date or an instant, then the id.
pub record Key : Type 0 where
  pub at : ℕ
  pub id : ℕ

-- `ORDER BY at DESC, id DESC`; as the test of a cursor: `at < cur OR (at = cur AND id < cur_id)`.
unfoldable pub newest_first : Key → Key → Bool
newest_first a b = ltb b.at a.at || (b.at == a.at && ltb b.id a.id)

-- `ORDER BY at ASC, id ASC`
unfoldable pub oldest_first : Key → Key → Bool
oldest_first a b = ltb a.at b.at || (b.at == a.at && ltb a.id b.id)

module _ {A : Type 0} (key : A → Key) (before : Key → Key → Bool) where
  unfoldable pub insert_row : A → List A → List A
  insert_row x [] = x ∷ []
  insert_row x (y ∷ rows) = if before (key x) (key y) then x ∷ y ∷ rows else y ∷ insert_row x rows

  unfoldable pub order_by : List A → List A
  order_by [] = []
  order_by (x ∷ rows) = insert_row x (order_by rows)

  -- The row comes after the cursor, if there is one.
  abbrev pub is_past : Option Key → A → Bool
  is_past none r = true
  is_past (some c) r = before c (key r)

  -- The rows that one query returns.
  unfoldable pub fetch : (A → Bool) → Option Key → ℕ → List A → List A
  fetch p cursor limit rows =
      take (limit + 1) (order_by (select (λ r. p r && is_past cursor r) rows))

  abbrev pub key_of : Option A → Option Key
  key_of none = none
  key_of (some r) = some (key r)

  -- The page and the next cursor: `rows[limit - 1]` if there are more than `limit` rows.
  unfoldable pub cut_page : ℕ → List A → List A × Option Key
  cut_page limit rows =
      if ltb limit (length rows)
      then (take limit rows, key_of (get_elem? rows (limit - 1)))
      else (rows, none)

  unfoldable pub get_page : (A → Bool) → Option Key → ℕ → List A → List A × Option Key
  get_page p cursor limit rows = cut_page limit (fetch p cursor limit rows)
