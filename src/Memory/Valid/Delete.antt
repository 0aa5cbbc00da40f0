-- ===== src/Memory/Valid/Delete.antt =====
-- `delete_memory` and `sync_memory` keep the table well formed.
use me.Base.{ℕ, ◌≡◌, true, some, List, arith, is_none, inl, inr, Option-cases}
use me.Platform.{Platform}
use me.MemoryClient.{MemoryClient, Call}
use me.Memory.{Memory, World}
use me.Memory.Table.{is_owned, find_owned}
use me.Memory.Table.Unique.{SameKey}
use me.Memory.Remote.{send_to_supermemory_add, send_to_supermemory_patch}
use me.Memory.Delete.{delete_remote, delete_row, delete_memory}
use me.Memory.Sync.{sync_status, sync_row, sync_memory}
use me.Memory.Valid.Rows.{IsRow, IsTable, AllRows-find, IsTable-put_row}

pub delete_remote-SameKey :
    (client : MemoryClient) (now : ℕ) (row : Memory) (calls : List Call)
    → SameKey row (delete_remote client (record row { deleted_at = some now }) calls).0
unfolding delete_remote
delete_remote-SameKey client now row calls = ground arith

delete_remote-IsRow :
    (p : Platform) (client : MemoryClient) (now : ℕ) (row : Memory) (calls : List Call)
    → IsRow p row
    → is_none row.deleted_at ≡ true
    → IsRow p (delete_remote client (record row { deleted_at = some now }) calls).0
unfolding delete_remote
delete_remote-IsRow p client now row calls h live = ground arith

delete_row-IsTable :
    (p : Platform) (client : MemoryClient) (now user_id memory_id : ℕ) (row : Memory) (w : World)
    → IsTable p w.memories
    → find_owned user_id memory_id w.memories ≡ some row
    → is_none row.deleted_at ≡ true
    → IsTable p (delete_row client now row w).memories
unfolding delete_row
delete_row-IsTable p client now user_id memory_id row w t found live =
    IsTable-put_row p (is_owned user_id memory_id) row _ w.memories t found
      (delete_remote-SameKey client now row w.calls)
      (delete_remote-IsRow p client now row w.calls
        (AllRows-find p (is_owned user_id memory_id) w.memories row t.each_row found) live)

-- Deleting keeps the table well formed, whatever the backend replies.
pub delete_memory-IsTable :
    (p : Platform) (client : MemoryClient) (now user_id memory_id : ℕ) (w : World)
    → IsTable p w.memories
    → IsTable p (delete_memory client now user_id memory_id w).1.memories
unfolding delete_memory
delete_memory-IsTable p client now user_id memory_id w t =
    elim (Option-cases (find_owned user_id memory_id w.memories)) [
      | inl missing ↦ rw (missing, delete_memory) t
      | inr (row, found) ↦
          rw (found, delete_memory)
            (elim (Option-cases row.deleted_at) [
              | inl live ↦
                  simp live
                    (delete_row-IsTable p client now user_id memory_id row w t found (ground arith))
              | inr (at, gone) ↦ simp gone t
            ])
    ]

pub sync_status-SameKey :
    (client : MemoryClient) (now : ℕ) (row : Memory) (calls : List Call)
    → SameKey row (sync_status row.external_status client now row calls).0
unfolding sync_status send_to_supermemory_add send_to_supermemory_patch
sync_status-SameKey client now row calls = ground arith

sync_status-IsRow :
    (p : Platform) (client : MemoryClient) (now : ℕ) (row : Memory) (calls : List Call)
    → IsRow p row
    → IsRow p (sync_status row.external_status client now row calls).0
unfolding sync_status send_to_supermemory_add send_to_supermemory_patch
sync_status-IsRow p client now row calls h = ground arith

sync_row-IsTable :
    (p : Platform) (client : MemoryClient) (now user_id memory_id : ℕ) (row : Memory) (w : World)
    → IsTable p w.memories
    → find_owned user_id memory_id w.memories ≡ some row
    → IsTable p (sync_row client now row w).1.memories
unfolding sync_row
sync_row-IsTable p client now user_id memory_id row w t found =
    IsTable-put_row p (is_owned user_id memory_id) row _ w.memories t found
      (sync_status-SameKey client now row w.calls)
      (sync_status-IsRow p client now row w.calls
        (AllRows-find p (is_owned user_id memory_id) w.memories row t.each_row found))

-- Syncing keeps the table well formed, whatever the backend replies.
pub sync_memory-IsTable :
    (p : Platform) (client : MemoryClient) (now user_id memory_id : ℕ) (w : World)
    → IsTable p w.memories
    → IsTable p (sync_memory client now user_id memory_id w).1.memories
unfolding sync_memory
sync_memory-IsTable p client now user_id memory_id w t =
    elim (Option-cases (find_owned user_id memory_id w.memories)) [
      | inl missing ↦ rw (missing, sync_memory) t
      | inr (row, found) ↦
          rw (found, sync_memory) (sync_row-IsTable p client now user_id memory_id row w t found)
    ]
