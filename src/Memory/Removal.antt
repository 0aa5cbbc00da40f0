-- ===== src/Memory/Removal.antt =====
-- What holds after `delete_memory`, and what `sync_memory` does to a deleted row.
use me.Base.{ℕ, ◌≡◌, none, some, ◌∷◌, arith, inl, inr, Option-cases}
use me.Platform.{Platform}
use me.Errors.{ok, err, memory_not_found}
use me.MemoryClient.{MemoryClient}
use me.Memory.{Memory, World, unsynced}
use me.Memory.Table.{find_owned, find_owned_live}
use me.Memory.Table.Unique.{SameKey}
use me.Memory.Remote.{send_add_call}
use me.Memory.Update.{get_memory}
use me.Memory.Delete.{delete_remote, delete_row, delete_memory}
use me.Memory.Sync.{sync_status, sync_row, sync_memory}
use me.Memory.Valid.{IsTable}
use me.Memory.Owner.{find_owned-put_row, find_owned_live-put_row, find_owned_live_dead}

module _ (client : MemoryClient) (now user_id memory_id : ℕ) (w : World) (row : Memory) where
  abbrev gone : Memory
  gone = (delete_remote client (record row { deleted_at = some now }) w.calls).0

  gone-SameKey : SameKey row gone
  unfolding delete_remote
  gone-SameKey = ground arith

  gone_deleted : gone.deleted_at ≡ some now
  unfolding delete_remote
  gone_deleted = ground arith

  delete_memory_live :
      find_owned user_id memory_id w.memories ≡ some row
      → row.deleted_at ≡ none
      → delete_memory client now user_id memory_id w ≡ (ok tt, delete_row client now row w)
  unfolding delete_memory
  delete_memory_live found live = rw (found, delete_memory) (simp live)

pub delete_memory_dead :
    (client : MemoryClient) (now user_id memory_id : ℕ) (w : World) {row : Memory} {at : ℕ}
    → find_owned user_id memory_id w.memories ≡ some row
    → row.deleted_at ≡ some at
    → delete_memory client now user_id memory_id w ≡ (ok tt, w)
unfolding delete_memory
delete_memory_dead client now user_id memory_id w found dead = rw (found, delete_memory) (simp dead)

delete_memory_missing :
    (client : MemoryClient) (now user_id memory_id : ℕ) (w : World)
    → find_owned user_id memory_id w.memories ≡ none
    → delete_memory client now user_id memory_id w ≡ (err memory_not_found, w)
unfolding delete_memory
delete_memory_missing client now user_id memory_id w e = rw (e, delete_memory)

sync_memory_found :
    (client : MemoryClient) (now user_id memory_id : ℕ) (w : World) {row : Memory}
    → find_owned user_id memory_id w.memories ≡ some row
    → sync_memory client now user_id memory_id w ≡ sync_row client now row w
unfolding sync_memory
sync_memory_found client now user_id memory_id w e = rw (e, sync_memory)

-- The retry sends an add for a row without a document, deleted or not.
sync_row_add :
    (client client' : MemoryClient) (now now' user_id memory_id : ℕ) (w : World) (row : Memory)
    → row.external_id ≡ none
    → row.external_status ≡ unsynced
    → (sync_row client' now'
        (gone client now user_id memory_id w row)
        (delete_row client now row w)).1.calls
      ≡ send_add_call (record row { deleted_at = some now }) ∷ w.calls
unfolding sync_row sync_status delete_row delete_remote
sync_row_add client client' now now' user_id memory_id w row no_id status = ground arith

module _ (p : Platform) (client : MemoryClient) (now user_id memory_id : ℕ) (w : World) where
  delete_row-found :
      (row : Memory)
      → IsTable p w.memories
      → find_owned user_id memory_id w.memories ≡ some row
      → find_owned user_id memory_id (delete_row client now row w).memories
        ≡ some (gone client now user_id memory_id w row)
  unfolding delete_row
  delete_row-found row t found =
      find_owned-put_row user_id memory_id _ w.memories t.unique found
        (gone-SameKey client now user_id memory_id w row)

  delete_row-hidden :
      (row : Memory)
      → IsTable p w.memories
      → find_owned user_id memory_id w.memories ≡ some row
      → find_owned_live user_id memory_id (delete_row client now row w).memories ≡ none
  unfolding delete_row
  delete_row-hidden row t found =
      find_owned_live-put_row user_id memory_id _ w.memories t.unique found
        (gone-SameKey client now user_id memory_id w row)
        (ground (arith, gone_deleted client now user_id memory_id w row))

  -- After a `delete_memory` that returns, `get_memory` does not find the row, and a second
  -- `delete_memory` returns, changes nothing and sends nothing, at any time and to any backend.
  pub delete_memory-hides :
      (client' : MemoryClient) (now' : ℕ)
      → IsTable p w.memories
      → (delete_memory client now user_id memory_id w).0 ≡ ok tt
      → (get_memory user_id memory_id (delete_memory client now user_id memory_id w).1
          ≡ err memory_not_found)
        × (delete_memory client' now' user_id memory_id
              (delete_memory client now user_id memory_id w).1
            ≡ (ok tt, (delete_memory client now user_id memory_id w).1))
  delete_memory-hides client' now' t done =
      elim (Option-cases (find_owned user_id memory_id w.memories)) [
        | inl missing ↦
            absurd (ground (arith, delete_memory_missing client now user_id memory_id w missing))
        | inr (row, found) ↦ elim (Option-cases row.deleted_at) [
          | inl live ↦ rw (delete_memory_live client now user_id memory_id w row found live) (
            unfold get_memory in rw (delete_row-hidden row t found, get_memory),
            delete_memory_dead client' now' user_id memory_id (delete_row client now row w)
                (delete_row-found row t found) (gone_deleted client now user_id memory_id w row),
          )
          | inr (at, dead) ↦ rw (delete_memory_dead client now user_id memory_id w found dead) (
            unfold get_memory in
                rw (
                  find_owned_live_dead user_id memory_id w.memories t.unique found (ground arith),
                  get_memory,
                ),
            delete_memory_dead client' now' user_id memory_id w found dead,
          )
        ]
      ]

-- A row that was never uploaded keeps its status `unsynced` when it is deleted. The next
-- `sync_memory` of it sends its text to the backend, with an add.
pub sync_memory_uploads_deleted :
    (p : Platform) (client client' : MemoryClient) (now now' user_id memory_id : ℕ) (w : World)
    (row : Memory)
    → IsTable p w.memories
    → find_owned user_id memory_id w.memories ≡ some row
    → row.deleted_at ≡ none
    → row.external_id ≡ none
    → row.external_status ≡ unsynced
    → (sync_memory client' now' user_id memory_id
        (delete_memory client now user_id memory_id w).1).1.calls
      ≡ send_add_call (record row { deleted_at = some now }) ∷ w.calls
sync_memory_uploads_deleted p client client' now now' user_id memory_id w row t found live no_id
      status =
    rw (delete_memory_live client now user_id memory_id w row found live) (
      rw
        (sync_memory_found client' now' user_id memory_id (delete_row client now row w)
          (delete_row-found p client now user_id memory_id w row t found))
        (sync_row_add client client' now now' user_id memory_id w row no_id status))
