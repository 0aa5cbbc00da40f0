-- ===== src/Memory/Create.antt =====
-- `create_memory` of app/services/memory.py.
use me.Base.{
  ◌≡◌, ℕ, Bool, Option, none, some, List, ◌∷◌, ◌&&◌, ◌==◌, if◌then◌else◌, Text, text_eq, is_none,
  is_some, is_empty, find,
}
use me.Text.{strip}
use me.Platform.{Platform}
use me.Errors.{
  Error, ◌>>=◌, Result, ok, err, memory_validation_error, empty_text, memory_idempotency_reused,
  integrity_error, no_result_found,
}
use me.Helpers.{Float, canonical_hash, validate_tz, validate_location_pair}
use me.MemoryClient.{MemoryClient}
use me.Memory.{Memory, World, unsynced}
use me.Memory.Table.{
  Inserted, inserted, conflict, violated, insert_on_conflict, put_row, find_owned,
}
use me.Memory.Remote.{send_to_supermemory_add, send_add_call}

-- The keyword arguments of `create_memory`.
pub record CreateArgs : Type 0 where
  pub user_id : ℕ
  pub text : Text
  pub event_date : ℕ
  pub event_tz : Text
  pub event_time : Option ℕ
  pub location_lat : Option Float
  pub location_lng : Option Float
  pub location_label : Option Text
  pub idempotency_id : Option ℕ

unfoldable pub create_checks : Platform → CreateArgs → Result (Unit {0})
create_checks p a =
    if is_empty (strip a.text)
    then err (memory_validation_error empty_text)
    else do _ ← validate_tz p a.event_tz; validate_location_pair a.location_lat a.location_lng

-- The layer-1 lookup: the row of this user with the idempotency id, deleted or not.
unfoldable pub idempotent_hit : CreateArgs → List Memory → Option Memory
idempotent_hit a rows = elim a.idempotency_id [ none ↦ none | some k ↦ find_owned a.user_id k rows ]

abbrev pub row_id : Option ℕ → ℕ → ℕ
row_id none new_id = new_id
row_id (some k) new_id = k

-- The row to insert: `values` with the defaults of the server, `gen_random_uuid()` among them.
unfoldable pub new_row : Platform → (now new_id : ℕ) → CreateArgs → Memory
new_row p now new_id a = record {
  id = row_id a.idempotency_id new_id;
  user_id = a.user_id;
  text = strip a.text;
  event_date = a.event_date;
  event_time = a.event_time;
  event_tz = a.event_tz;
  location_lat = a.location_lat;
  location_lng = a.location_lng;
  location_label = a.location_label;
  content_hash = canonical_hash p (strip a.text);
  external_id = none;
  external_status = unsynced;
  external_synced_at = none;
  external_error = none;
  created_at = now;
  deleted_at = none;
}

-- The layer-2 lookup: `Memory.user_id`, `Memory.content_hash`, and not deleted.
abbrev pub has_content : ℕ → List ℕ → Memory → Bool
has_content user_id digest r =
    r.user_id == user_id && text_eq r.content_hash digest && is_none r.deleted_at

scalar_one : Option Memory → Result Memory
scalar_one none = err no_result_found
scalar_one (some r) = ok r

-- What follows the INSERT: the layer-2 lookup, the error, or the request and the commit.
unfoldable pub create_inserted :
    MemoryClient → ℕ → Memory → World → Inserted → Result Memory × World
unfolding scalar_one
create_inserted client now row w conflict =
    (scalar_one (find (has_content row.user_id row.content_hash) w.memories), w)
create_inserted client now row w (violated c) = (err (integrity_error c), w)
create_inserted client now row w (inserted rows) =
    let sent = send_to_supermemory_add client now row in
    (ok sent, record { memories = put_row sent rows; calls = send_add_call row ∷ w.calls })

unfoldable pub create_insert : MemoryClient → ℕ → Memory → World → Result Memory × World
unfolding create_inserted
create_insert client now row w =
    create_inserted client now row w (insert_on_conflict row w.memories)

unfoldable pub create_checked :
    Platform → MemoryClient → (now new_id : ℕ) → CreateArgs → World → Result Memory × World
create_checked p client now new_id a w = elim (idempotent_hit a w.memories) [
  | none ↦ create_insert client now (new_row p now new_id a) w
  | some existing ↦
      if is_some existing.deleted_at then (err memory_idempotency_reused, w) else (ok existing, w)
]

unfoldable pub create_memory :
    Platform → MemoryClient → (now new_id : ℕ) → CreateArgs → World → Result Memory × World
create_memory p client now new_id a w = elim (create_checks p a) [
  | err e ↦ (err e, w)
  | ok _ ↦ create_checked p client now new_id a w
]

-- The steps of `create_memory`, for rewriting.
module _ (p : Platform) (client : MemoryClient) (now new_id : ℕ) (a : CreateArgs) (w : World) where
  pub create_memory_passed :
      {u : Unit {0}}
      → create_checks p a ≡ ok u
      → create_memory p client now new_id a w ≡ create_checked p client now new_id a w
  unfolding create_memory
  create_memory_passed h = rw (h, create_memory)

  pub create_memory_refused :
      {e : Error} → create_checks p a ≡ err e → create_memory p client now new_id a w ≡ (err e, w)
  unfolding create_memory
  create_memory_refused h = rw (h, create_memory)

  pub create_checked_fresh :
      idempotent_hit a w.memories ≡ none
      → create_checked p client now new_id a w ≡ create_insert client now (new_row p now new_id a) w
  unfolding create_checked
  create_checked_fresh h = rw (h, create_checked)
