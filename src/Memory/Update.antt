-- ===== src/Memory/Update.antt =====
-- `get_memory` and `update_memory` of app/services/memory.py.
use me.Base.{
  ℕ, Bool, true, false, Option, none, some, ◌∷◌, ◌||◌, not, if◌then◌else◌, Text, text_eq, is_empty,
}
use me.Text.{strip}
use me.Platform.{Platform}
use me.Errors.{
  Result, ok, err, ◌>>=◌, ◌>>◌, Constraint, ux_user_content_hash, memory_not_found,
  memory_duplicate, memory_validation_error, empty_text, integrity_error,
}
use me.Helpers.{Float, canonical_hash, validate_tz, validate_location_pair}
use me.MemoryClient.{MemoryClient, Call}
use me.Memory.{Memory, World}
use me.Memory.Table.{update_violation, put_row, find_owned_live}
use me.Memory.Remote.{
  send_to_supermemory_add, send_add_call, send_to_supermemory_patch, send_patch_call,
}

unfoldable pub get_memory : (user_id memory_id : ℕ) → World → Result Memory
get_memory user_id memory_id w = elim (find_owned_live user_id memory_id w.memories) [
  | none ↦ err memory_not_found
  | some row ↦ ok row
]

-- `T | _UnsetType`: a field that the caller left out, or its new value.
pub data Field {ℓ} (A : Type ℓ) : Type ℓ where
  unset : Field A
  set : A → Field A

pub record Patch : Type 0 where
  pub text : Field Text
  pub event_date : Field ℕ
  pub event_time : Field (Option ℕ)
  pub event_tz : Field Text
  pub location_lat : Field (Option Float)
  pub location_lng : Field (Option Float)
  pub location_label : Field (Option Text)

abbrev pub merge {ℓ} : {A : Type ℓ} → Field A → A → A
merge unset old = old
merge (set new) old = new

abbrev pub is_set {ℓ} : {A : Type ℓ} → Field A → Bool
is_set unset = false
is_set (set new) = true

check_tz : Platform → Field Text → Result (Unit {0})
check_tz p unset = ok tt
check_tz p (set name) = do _ ← validate_tz p name; ok tt

-- The resulting pair is checked, when either coordinate is in the patch.
check_location : Patch → Memory → Result (Unit {0})
check_location patch row =
    if is_set patch.location_lat || is_set patch.location_lng
    then validate_location_pair (merge patch.location_lat row.location_lat)
        (merge patch.location_lng row.location_lng)
    else ok tt

check_text : Field Text → Result (Unit {0})
check_text unset = ok tt
check_text (set text) =
    if is_empty (strip text) then err (memory_validation_error empty_text) else ok tt

unfoldable pub update_checks : Platform → Patch → Memory → Result (Unit {0})
unfolding check_tz check_location check_text
update_checks p patch row = do
  check_tz p patch.event_tz
  check_location patch row
  check_text patch.text

unfoldable pub text_changed : Field Text → Memory → Bool
text_changed unset row = false
text_changed (set text) row = not (text_eq (strip text) row.text)

unfoldable pub with_text : Platform → Field Text → Memory → Memory
with_text p unset row = row
with_text p (set text) row =
    if text_eq (strip text) row.text
    then row
    else record row { text = strip text; content_hash = canonical_hash p (strip text) }

-- The assignments to the row, up to the flush.
unfoldable pub apply_patch : Platform → Patch → Memory → Memory
unfolding with_text
apply_patch p patch row = record (with_text p patch.text row) {
  event_date = merge patch.event_date row.event_date;
  event_time = merge patch.event_time row.event_time;
  event_tz = merge patch.event_tz row.event_tz;
  location_lat = merge patch.location_lat row.location_lat;
  location_lng = merge patch.location_lng row.location_lng;
  location_label = merge patch.location_label row.location_label;
}

-- The handler of the flush's `IntegrityError`, after the rollback.
unfoldable pub flush_error : Bool → Constraint → Result Memory
flush_error true ux_user_content_hash = err memory_duplicate
flush_error true c = err (integrity_error c)
flush_error false c = err (integrity_error c)

-- The row after the request that follows the flush, and that request.
unfoldable pub send_update : MemoryClient → ℕ → Bool → Memory → Memory × Call
send_update client now changed row = elim row.external_id [
  | none ↦ (send_to_supermemory_add client now row, send_add_call row)
  | some doc_id ↦
      (send_to_supermemory_patch client now doc_id row changed, send_patch_call doc_id row changed)
]

unfoldable pub update_flushed : MemoryClient → ℕ → Bool → Memory → World → Result Memory × World
unfolding send_update
update_flushed client now changed row w =
    let (sent, call) = send_update client now changed row in
    (ok sent, record { memories = put_row sent w.memories; calls = call ∷ w.calls })

unfoldable pub update_row :
    Platform → MemoryClient → ℕ → Patch → Memory → World → Result Memory × World
update_row p client now patch row w =
    let changed = text_changed patch.text row in
    let row' = apply_patch p patch row in
    elim (update_violation row' w.memories) [
      | some c ↦ (flush_error changed c, w)
      | none ↦ update_flushed client now changed row' w
    ]

unfoldable pub update_found :
    Platform → MemoryClient → ℕ → Patch → Memory → World → Result Memory × World
update_found p client now patch row w = elim (update_checks p patch row) [
  | err e ↦ (err e, w)
  | ok _ ↦ update_row p client now patch row w
]

unfoldable pub update_memory :
    Platform → MemoryClient → (now user_id memory_id : ℕ) → Patch → World → Result Memory × World
update_memory p client now user_id memory_id patch w =
    elim (find_owned_live user_id memory_id w.memories) [
      | none ↦ (err memory_not_found, w)
      | some row ↦ update_found p client now patch row w
    ]
