-- ===== src/Memory/Remote.antt =====
-- The requests to the memory backend in app/services/memory.py: `_container_tag`,
-- `_build_metadata`, `_send_to_supermemory_add` and `_send_to_supermemory_patch`.
use me.Base.{
  ℕ, zero, suc, ◌+◌, ◌/◌, ◌%◌, Bool, Option, none, some, [], ◌∷◌, ◌++◌, ltb, if◌then◌else◌, Text,
  codes, is_empty,
}
use me.Helpers.{Float}
use me.MemoryClient.{
  MemoryClientError, reply, raised, Metadata, MemoryClient, Call, add_call, patch_call,
}
use me.Memory.{Memory, synced, unsynced}

hex_digit : ℕ → ℕ
hex_digit d = if ltb d 10 then 48 + d else 87 + d

hex_digits : ℕ → ℕ → Text → Text
unfolding hex_digit
hex_digits zero n rest = rest
hex_digits (suc k) n rest = hex_digits k (n / 16) (hex_digit (n % 16) ∷ rest)

-- `f"user_{user_id.hex}"`: 32 digits.
unfoldable pub container_tag : ℕ → Text
unfolding hex_digits
container_tag user_id = codes "user_" ++ hex_digits 32 user_id []

-- The label is sent if it is there and not empty, the coordinates if both are there.
unfoldable pub build_label : Option Text → Option Text
build_label none = none
build_label (some label) = if is_empty label then none else some label

unfoldable pub build_location : Option Float → Option Float → Option (Float × Float)
build_location (some lat) (some lng) = some (lat, lng)
build_location _ _ = none

unfoldable pub build_metadata : Memory → Metadata
unfolding build_label build_location
build_metadata row = record {
  event_date = row.event_date;
  event_tz = row.event_tz;
  created_at_unix = row.created_at / 1000000;
  location_label = build_label row.location_label;
  location = build_location row.location_lat row.location_lng;
}

-- What either `except MemoryClientError` handler leaves in the row.
abbrev pub mark_unsynced : Memory → MemoryClientError → Memory
mark_unsynced row e = record row { external_status = unsynced; external_error = some e }

abbrev pub mark_synced : ℕ → Memory → Memory
mark_synced now row = record row {
  external_status = synced;
  external_synced_at = some now;
  external_error = none;
}

-- The request, and the row that the reply to it leaves.
abbrev pub send_add_call : Memory → Call
send_add_call row = add_call row.id row.text (container_tag row.user_id ∷ []) (build_metadata row)

unfoldable pub send_to_supermemory_add : MemoryClient → ℕ → Memory → Memory
send_to_supermemory_add client now row =
    elim (client.add row.id row.text (container_tag row.user_id ∷ []) (build_metadata row)) [
      | raised e ↦ mark_unsynced row e
      | reply result ↦ mark_synced now (record row { external_id = some result.doc_id })
    ]

abbrev pub patch_content : Bool → Text → Option Text
patch_content content_changed text = if content_changed then some text else none

abbrev pub send_patch_call : Text → Memory → Bool → Call
send_patch_call doc_id row content_changed =
    patch_call doc_id (patch_content content_changed row.text) (build_metadata row)

-- The caller has checked that `row.external_id` is `doc_id`.
unfoldable pub send_to_supermemory_patch : MemoryClient → ℕ → Text → Memory → Bool → Memory
send_to_supermemory_patch client now doc_id row content_changed =
    elim (client.patch doc_id (patch_content content_changed row.text) (build_metadata row)) [
      | raised e ↦ mark_unsynced row e
      | reply _ ↦ mark_synced now row
    ]
