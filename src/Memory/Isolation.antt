-- ===== src/Memory/Isolation.antt =====
-- No request changes the rows of a user other than its own.
use me.Base.{
  find-true, ◌∙◌, ℕ, ◌≡◌, ◌≢◌, refl, some, List, ◌∷◌, arith, select, inl, inr, Option-cases,
}
use me.Platform.{Platform}
use me.Errors.{Result-cases}
use me.MemoryClient.{MemoryClient}
use me.Memory.{Memory, World}
use me.Memory.Table.{
  Inserted, inserted, conflict, violated, insert_on_conflict, is_owned, is_owned_live, find_owned,
  find_owned_live, update_violation,
}
use me.Memory.Table.Unique.{SameKey}
use me.Memory.Remote.{send_to_supermemory_add}
use me.Memory.Create.{
  CreateArgs, create_checks, idempotent_hit, new_row, create_inserted, create_insert,
  create_checked, create_memory, create_memory_passed, create_memory_refused, create_checked_fresh,
}
use me.Memory.Update.{
  Patch, text_changed, apply_patch, update_checks, update_flushed, update_row, update_found,
  update_memory,
}
use me.Memory.Delete.{delete_row, delete_memory}
use me.Memory.Sync.{sync_row, sync_memory}
use me.Memory.Search.{search_memories}
use me.Memory.Valid.{IsTable}
use me.Memory.Valid.Create.{sent_row-SameKey, insert_on_conflict_inserted, put_row_head}
use me.Memory.Valid.Update.{send_update-SameKey}
use me.Memory.Valid.Delete.{sync_status-SameKey, delete_remote-SameKey}
use me.Memory.Owner.{rows_of, rows_of-put_row}
use me.Memory.History.{Request, create, update, delete, sync, search, perform}

-- The user that a request acts for.
abbrev pub request_user : Request → ℕ
request_user (create a) = a.user_id
request_user (update u m patch) = u
request_user (delete u m) = u
request_user (sync u m) = u
request_user (search u q limit) = u

apply_patch_id :
    (p : Platform) (patch : Patch) (row : Memory) → (apply_patch p patch row).id ≡ row.id
unfolding apply_patch
apply_patch_id p patch row = ground arith

apply_patch_user :
    (p : Platform) (patch : Patch) (row : Memory) → (apply_patch p patch row).user_id ≡ row.user_id
unfolding apply_patch
apply_patch_user p patch row = ground arith

module _ (v : ℕ) where
  insert_others :
      (s : Memory) (rows : List Memory) → v ≢ s.user_id → rows_of v (s ∷ rows) ≡ rows_of v rows
  unfolding select
  insert_others s rows h = ground arith

  create_inserted-others :
      (p : Platform) (client : MemoryClient) (now new_id : ℕ) (a : CreateArgs) (w : World)
      (o : Inserted)
      → v ≢ a.user_id
      → insert_on_conflict (new_row p now new_id a) w.memories ≡ o
      → rows_of v (create_inserted client now (new_row p now new_id a) w o).1.memories
        ≡ rows_of v w.memories
  unfolding create_inserted new_row
  create_inserted-others p client now new_id a w conflict h e = refl
  create_inserted-others p client now new_id a w (violated c) h e = refl
  create_inserted-others p client now new_id a w (inserted rows) h e =
      let row = new_row p now new_id a in
      let sent = send_to_supermemory_add client now row in
      let same : SameKey row sent = sent_row-SameKey client now row in
      rw
        (
          (insert_on_conflict_inserted row w.memories rows e).0,
          put_row_head row sent w.memories same.same_row,
        )
        (insert_others sent w.memories (ground arith))

  create_memory-others :
      (p : Platform) (client : MemoryClient) (now new_id : ℕ) (a : CreateArgs) (w : World)
      → v ≢ a.user_id
      → rows_of v (create_memory p client now new_id a w).1.memories ≡ rows_of v w.memories
  unfolding create_insert
  create_memory-others p client now new_id a w h = elim (Result-cases (create_checks p a)) [
    | inr (e, bad) ↦ rw (create_memory_refused p client now new_id a w bad)
    | inl (u, good) ↦
        rw (create_memory_passed p client now new_id a w good)
          (elim (Option-cases (idempotent_hit a w.memories)) [
            | inl fresh ↦ rw (create_checked_fresh p client now new_id a w fresh) (
                create_inserted-others p client now new_id a w
                  (insert_on_conflict (new_row p now new_id a) w.memories) h refl)
            | inr (row, hit) ↦ unfold create_checked in ground arith
          ])
  ]

  owner_of :
      (user_id memory_id : ℕ) (rows : List Memory) {row : Memory}
      → find_owned user_id memory_id rows ≡ some row
      → row.user_id ≡ user_id
  owner_of user_id memory_id rows {row} e =
      ground (arith, find-true (is_owned user_id memory_id) rows row e)

  update_row-others :
      (p : Platform) (client : MemoryClient) (now user_id memory_id : ℕ) (patch : Patch)
      (row : Memory) (w : World)
      → v ≢ user_id
      → IsTable p w.memories
      → find_owned_live user_id memory_id w.memories ≡ some row
      → rows_of v (update_row p client now patch row w).1.memories ≡ rows_of v w.memories
  unfolding update_row update_flushed
  update_row-others p client now user_id memory_id patch row w h t found =
      let row' = apply_patch p patch row in
      let same = send_update-SameKey client now (text_changed patch.text row) row' in
      let owner = find-true (is_owned_live user_id memory_id) w.memories row found in
      elim (Option-cases (update_violation row' w.memories)) [
        | inr (c, bad) ↦ rw (bad, update_row)
        | inl fine ↦
            rw (fine, update_row)
              (rows_of-put_row (is_owned_live user_id memory_id) row _ v w.memories t.unique found
                (same.same_row ∙ apply_patch_id p patch row)
                (same.same_user ∙ apply_patch_user p patch row) (ground arith))
      ]

  update_memory-others :
      (p : Platform) (client : MemoryClient) (now user_id memory_id : ℕ) (patch : Patch) (w : World)
      → v ≢ user_id
      → IsTable p w.memories
      → rows_of v (update_memory p client now user_id memory_id patch w).1.memories
        ≡ rows_of v w.memories
  unfolding update_memory update_found
  update_memory-others p client now user_id memory_id patch w h t =
      elim (Option-cases (find_owned_live user_id memory_id w.memories)) [
        | inl missing ↦ rw (missing, update_memory)
        | inr (row, found) ↦
            rw (found, update_memory)
              (elim (Result-cases (update_checks p patch row)) [
                | inl (u, good) ↦
                    rw (good, update_found)
                      (update_row-others p client now user_id memory_id patch row w h t found)
                | inr (e, bad) ↦ rw (bad, update_found)
              ])
      ]

  delete_memory-others :
      (p : Platform) (client : MemoryClient) (now user_id memory_id : ℕ) (w : World)
      → v ≢ user_id
      → IsTable p w.memories
      → rows_of v (delete_memory client now user_id memory_id w).1.memories ≡ rows_of v w.memories
  unfolding delete_memory delete_row
  delete_memory-others p client now user_id memory_id w h t =
      elim (Option-cases (find_owned user_id memory_id w.memories)) [
        | inl missing ↦ rw (missing, delete_memory)
        | inr (row, found) ↦
            let same = delete_remote-SameKey client now row w.calls in
            let owner = owner_of user_id memory_id w.memories found in
            rw (found, delete_memory)
              (elim (Option-cases row.deleted_at) [
                | inl live ↦ simp live (
                    rows_of-put_row (is_owned user_id memory_id) row _ v w.memories t.unique found
                      same.same_row same.same_user (ground arith))
                | inr (at, dead) ↦ simp dead
              ])
      ]

  sync_memory-others :
      (p : Platform) (client : MemoryClient) (now user_id memory_id : ℕ) (w : World)
      → v ≢ user_id
      → IsTable p w.memories
      → rows_of v (sync_memory client now user_id memory_id w).1.memories ≡ rows_of v w.memories
  unfolding sync_memory sync_row
  sync_memory-others p client now user_id memory_id w h t =
      elim (Option-cases (find_owned user_id memory_id w.memories)) [
        | inl missing ↦ rw (missing, sync_memory)
        | inr (row, found) ↦
            let same = sync_status-SameKey client now row w.calls in
            let owner = owner_of user_id memory_id w.memories found in
            rw (found, sync_memory)
              (rows_of-put_row (is_owned user_id memory_id) row _ v w.memories t.unique found
                same.same_row same.same_user (ground arith))
      ]

-- In a well-formed table, a request changes no row of another user, whatever the backend replies.
pub perform-others :
    (p : Platform) (client : MemoryClient) (now new_id : ℕ) (r : Request) (v : ℕ) (w : World)
    → v ≢ request_user r
    → IsTable p w.memories
    → rows_of v (perform p client now new_id r w).memories ≡ rows_of v w.memories
unfolding perform search_memories
perform-others p client now new_id (create a) v w h t =
    create_memory-others v p client now new_id a w h
perform-others p client now new_id (update u m patch) v w h t =
    update_memory-others v p client now u m patch w h t
perform-others p client now new_id (delete u m) v w h t =
    delete_memory-others v p client now u m w h t
perform-others p client now new_id (sync u m) v w h t = sync_memory-others v p client now u m w h t
perform-others p client now new_id (search u q limit) v w h t = refl
