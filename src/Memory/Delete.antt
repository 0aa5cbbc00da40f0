-- ===== src/Memory/Delete.antt =====
-- `delete_memory` of app/services/memory.py.
use me.Base.{ℕ, none, some, List, ◌∷◌, is_some, if◌then◌else◌}
use me.Errors.{Result, ok, err, memory_not_found}
use me.MemoryClient.{MemoryClient, Reply, reply, raised, Call, delete_call}
use me.Memory.{Memory, World, synced, pending_delete}
use me.Memory.Table.{put_row, find_owned}

-- What the reply to `client.delete` leaves in the row.
unfoldable pub after_delete : Reply (Unit {0}) → Memory → Memory
after_delete (raised e) row = record row {
  external_status = pending_delete;
  external_error = some e;
}
after_delete (reply _) row = record row { external_status = synced; external_error = none }

-- The row with `deleted_at` set, after the remote half; and the requests, the latest first.
unfoldable pub delete_remote : MemoryClient → Memory → List Call → Memory × List Call
unfolding after_delete
delete_remote client row calls = elim row.external_id [
  | none ↦ (row, calls)
  | some doc_id ↦ (after_delete (client.delete doc_id) row, delete_call doc_id ∷ calls)
]

unfoldable pub delete_row : MemoryClient → ℕ → Memory → World → World
unfolding delete_remote
delete_row client now row w =
    let (row', calls') = delete_remote client (record row { deleted_at = some now }) w.calls in
    record { memories = put_row row' w.memories; calls = calls' }

unfoldable pub delete_memory :
    MemoryClient → (now user_id memory_id : ℕ) → World → Result (Unit {0}) × World
delete_memory client now user_id memory_id w = elim (find_owned user_id memory_id w.memories) [
  | none ↦ (err memory_not_found, w)
  | some row ↦ if is_some row.deleted_at then (ok tt, w) else (ok tt, delete_row client now row w)
]
