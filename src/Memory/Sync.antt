-- ===== src/Memory/Sync.antt =====
-- `sync_memory` of app/services/memory.py.
use me.Base.{ℕ, true, none, some, List, ◌∷◌}
use me.Errors.{Result, ok, err, memory_not_found}
use me.MemoryClient.{MemoryClient, Reply, reply, raised, Call, delete_call}
use me.Memory.{Memory, World, ExternalStatus, synced, unsynced, pending_delete}
use me.Memory.Table.{put_row, find_owned}
use me.Memory.Update.{send_update}

-- The retried delete: an error leaves the row in `pending_delete`.
unfoldable pub after_retried_delete : Reply (Unit {0}) → Memory → Memory
after_retried_delete (raised e) row = record row { external_error = some e }
after_retried_delete (reply _) row = record row { external_status = synced; external_error = none }

unfoldable pub retry_delete : MemoryClient → Memory → List Call → Memory × List Call
unfolding after_retried_delete
retry_delete client row calls = elim row.external_id [
  | none ↦ (record row { external_status = synced; external_error = none }, calls)
  | some doc_id ↦ (after_retried_delete (client.delete doc_id) row, delete_call doc_id ∷ calls)
]

-- `unsynced`: an add or a patch with the content, as `update_memory` chooses between them.
unfoldable pub retry_send : MemoryClient → ℕ → Memory → List Call → Memory × List Call
unfolding send_update
retry_send client now row calls =
    let (row', call) = send_update client now true row in (row', call ∷ calls)

unfoldable pub sync_status :
    ExternalStatus → MemoryClient → ℕ → Memory → List Call → Memory × List Call
unfolding retry_send retry_delete
sync_status synced client now row calls = (row, calls)
sync_status unsynced client now row calls = retry_send client now row calls
sync_status pending_delete client now row calls = retry_delete client row calls

unfoldable pub sync_row : MemoryClient → ℕ → Memory → World → Result Memory × World
unfolding sync_status
sync_row client now row w =
    let (row', calls') = sync_status row.external_status client now row w.calls in
    (ok row', record { memories = put_row row' w.memories; calls = calls' })

unfoldable pub sync_memory :
    MemoryClient → (now user_id memory_id : ℕ) → World → Result Memory × World
sync_memory client now user_id memory_id w = elim (find_owned user_id memory_id w.memories) [
  | none ↦ (err memory_not_found, w)
  | some row ↦ sync_row client now row w
]
