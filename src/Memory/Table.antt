-- ===== src/Memory/Table.antt =====
-- The table `memories` of app/models/memory.py under the statements of the service: its primary
-- key, its partial unique index, its checks, `INSERT … ON CONFLICT DO NOTHING` and a flush.
pub mod Unique
use me.Base.{
  ℕ, Bool, not, ◌&&◌, Option, none, some, List, [], ◌∷◌, ◌==◌, if◌then◌else◌, text_eq, is_none,
  length, any, find,
}
use me.Errors.{ok, err, Constraint, ux_user_content_hash, pk, ck_content_hash_len, ck_location}
use me.Helpers.{validate_location_pair}
use me.Memory.{Memory}

abbrev pub same_id : Memory → Memory → Bool
same_id a b = a.id == b.id

-- Two rows that the index `ux_memories_user_content_hash` does not admit together.
unfoldable pub live_clash : Memory → Memory → Bool
live_clash a b =
    is_none a.deleted_at
    && is_none b.deleted_at
    && a.user_id == b.user_id
    && text_eq a.content_hash b.content_hash

-- The check constraints of the table.
pub check_constraints : Memory → Option Constraint
check_constraints r =
    if not (length r.content_hash == 32)
    then some ck_content_hash_len
    else elim (validate_location_pair r.location_lat r.location_lng) [
      | ok _ ↦ none
      | err _ ↦ some ck_location
    ]

pub data Inserted : Type 0 where
  inserted : List Memory → Inserted
  conflict : Inserted
  violated : Constraint → Inserted

pub insert_row : Memory → List Memory → Inserted
insert_row r rows =
    if any (live_clash r) rows
    then conflict
    else if any (same_id r) rows
    then violated pk
    else inserted (r ∷ rows)

-- `pg_insert(Memory).on_conflict_do_nothing(index_elements=["user_id", "content_hash"], …)`: the
-- checks come first, then the named index, then the other indices.
unfoldable pub insert_on_conflict : Memory → List Memory → Inserted
unfolding insert_row check_constraints
insert_on_conflict r rows = elim (check_constraints r) [
  | some c ↦ violated c
  | none ↦ insert_row r rows
]

abbrev pub other_clash : Memory → Memory → Bool
other_clash r y = not (same_id r y) && live_clash r y

-- The UPDATE of one row: the constraint that it violates, if any.
unfoldable pub update_violation : Memory → List Memory → Option Constraint
unfolding check_constraints
update_violation r rows = elim (check_constraints r) [
  | some c ↦ some c
  | none ↦ if any (other_clash r) rows then some ux_user_content_hash else none
]

-- The table once the row with that id is written back.
unfoldable pub put_row : Memory → List Memory → List Memory
put_row r [] = []
put_row r (x ∷ rows) = if same_id x r then r ∷ rows else x ∷ put_row r rows

-- `Memory.id == memory_id, Memory.user_id == user_id`
abbrev pub is_owned : ℕ → ℕ → Memory → Bool
is_owned user_id memory_id r = r.id == memory_id && r.user_id == user_id

-- … and `Memory.deleted_at.is_(None)`
abbrev pub is_owned_live : ℕ → ℕ → Memory → Bool
is_owned_live user_id memory_id r = is_owned user_id memory_id r && is_none r.deleted_at

-- The row that a filter on the primary key finds: `scalar_one_or_none`.
abbrev pub find_owned : ℕ → ℕ → List Memory → Option Memory
find_owned user_id memory_id = find (is_owned user_id memory_id)

abbrev pub find_owned_live : ℕ → ℕ → List Memory → Option Memory
find_owned_live user_id memory_id = find (is_owned_live user_id memory_id)
