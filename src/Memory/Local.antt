-- ===== src/Memory/Local.antt =====
-- Local rows do not depend on the memory backend: its replies reach the columns `external_*` only.
use me.Base.{ℕ, ◌≡◌, refl, ap, Bool, none, some, List, [], ◌∷◌, map, arith, inl, inr, Option-cases}
use me.Platform.{Platform}
use me.Errors.{Result, Result-cases, ok, err}
use me.MemoryClient.{MemoryClient, Call}
use me.Memory.{Memory, World, unsynced}
use me.Memory.Table.{
  Inserted, inserted, conflict, violated, insert_on_conflict, put_row, find_owned, find_owned_live,
  update_violation,
}
use me.Memory.Remote.{send_to_supermemory_add, send_to_supermemory_patch}
use me.Memory.Create.{
  CreateArgs, create_checks, idempotent_hit, new_row, create_inserted, create_insert,
  create_checked, create_memory, create_memory_passed, create_memory_refused, create_checked_fresh,
}
use me.Memory.Update.{
  Patch, send_update, update_checks, update_flushed, update_row, update_found, update_memory,
  apply_patch,
}
use me.Memory.Delete.{delete_remote, delete_row, delete_memory}

-- A row without what the backend's replies write.
abbrev pub local_row : Memory → Memory
local_row r = record r {
  external_id = none;
  external_status = unsynced;
  external_synced_at = none;
  external_error = none;
}

abbrev pub local_rows : World → List Memory
local_rows w = map local_row w.memories

abbrev pub local_result : Result Memory → Result Memory
local_result (ok r) = ok (local_row r)
local_result (err e) = err e

-- Two outcomes that differ in the columns of the backend at most.
pub record SameLocally (a b : Result Memory × World) : Type 0 where
  pub results : local_result a.0 ≡ local_result b.0
  pub tables : local_rows a.1 ≡ local_rows b.1

SameLocally-refl : (a : Result Memory × World) → SameLocally a a
SameLocally-refl a = record { results = refl; tables = refl }

pub put_row-local_row :
    (a b : Memory) (rows : List Memory)
    → local_row a ≡ local_row b
    → map local_row (put_row a rows) ≡ map local_row (put_row b rows)
unfolding put_row
put_row-local_row a b [] e = refl
put_row-local_row a b (x ∷ rows) e =
    let ids : a.id ≡ b.id = ap (λ (r : Memory). r.id) e in
    ground (arith, put_row-local_row a b rows e)

add-local_row :
    (client : MemoryClient) (now : ℕ) (row : Memory)
    → local_row (send_to_supermemory_add client now row) ≡ local_row row
unfolding send_to_supermemory_add
add-local_row client now row = ground arith

pub send_update-local_row :
    (client : MemoryClient) (now : ℕ) (changed : Bool) (row : Memory)
    → local_row (send_update client now changed row).0 ≡ local_row row
unfolding send_update send_to_supermemory_add send_to_supermemory_patch
send_update-local_row client now changed row = ground arith

delete_remote-local_row :
    (client : MemoryClient) (row : Memory) (calls : List Call)
    → local_row (delete_remote client row calls).0 ≡ local_row row
unfolding delete_remote
delete_remote-local_row client row calls = ground arith

module _ (client client' : MemoryClient) (now : ℕ) where
  sent_twice :
      (row : Memory)
      → local_row (send_to_supermemory_add client now row)
        ≡ local_row (send_to_supermemory_add client' now row)
  sent_twice row = rw (add-local_row client now row, add-local_row client' now row)

  create_inserted-local :
      (row : Memory) (w : World) (o : Inserted)
      → SameLocally (create_inserted client now row w o) (create_inserted client' now row w o)
  unfolding create_inserted
  create_inserted-local row w conflict = SameLocally-refl _
  create_inserted-local row w (violated c) = SameLocally-refl _
  create_inserted-local row w (inserted rows) = record {
    results = ap ok (sent_twice row);
    tables = put_row-local_row _ _ rows (sent_twice row);
  }

  -- Whatever two backends reply, `create_memory` ends the same and leaves the same rows with either, but
  -- for the columns on the state of the backend.
  pub create_memory-local :
      (p : Platform) (new_id : ℕ) (a : CreateArgs) (w : World)
      → SameLocally (create_memory p client now new_id a w) (create_memory p client' now new_id a w)
  unfolding create_insert
  create_memory-local p new_id a w = elim (Result-cases (create_checks p a)) [
    | inr (e, bad) ↦
        rw
          (
            create_memory_refused p client now new_id a w bad,
            create_memory_refused p client' now new_id a w bad,
          )
          (SameLocally-refl _)
    | inl (u, good) ↦
        rw
          (
            create_memory_passed p client now new_id a w good,
            create_memory_passed p client' now new_id a w good,
          )
          (elim (Option-cases (idempotent_hit a w.memories)) [
            | inl fresh ↦
                rw
                  (
                    create_checked_fresh p client now new_id a w fresh,
                    create_checked_fresh p client' now new_id a w fresh,
                  )
                  (create_inserted-local (new_row p now new_id a) w
                    (insert_on_conflict (new_row p now new_id a) w.memories))
            | inr (row, hit) ↦
                unfold create_checked in rw (hit, create_checked) (SameLocally-refl _)
          ])
  ]

  update_twice :
      (changed : Bool) (row : Memory)
      → local_row (send_update client now changed row).0
        ≡ local_row (send_update client' now changed row).0
  update_twice changed row =
      rw (
        send_update-local_row client now changed row,
        send_update-local_row client' now changed row,
      )

  update_row-local :
      (p : Platform) (patch : Patch) (row : Memory) (w : World)
      → SameLocally (update_row p client now patch row w) (update_row p client' now patch row w)
  unfolding update_row update_flushed
  update_row-local p patch row w =
      elim (Option-cases (update_violation (apply_patch p patch row) w.memories)) [
        | inr (c, bad) ↦ rw (bad, update_row) (SameLocally-refl _)
        | inl fine ↦
            rw (fine, update_row)
              (record {
                results = ap ok (update_twice _ _);
                tables = put_row-local_row _ _ w.memories (update_twice _ _);
              })
      ]

  -- Whatever two backends reply, `update_memory` ends the same and leaves the same rows with either, but
  -- for the columns on the state of the backend.
  pub update_memory-local :
      (p : Platform) (user_id memory_id : ℕ) (patch : Patch) (w : World)
      → SameLocally
          (update_memory p client now user_id memory_id patch w)
          (update_memory p client' now user_id memory_id patch w)
  unfolding update_memory update_found
  update_memory-local p user_id memory_id patch w =
      elim (Option-cases (find_owned_live user_id memory_id w.memories)) [
        | inl missing ↦ rw (missing, update_memory) (SameLocally-refl _)
        | inr (row, found) ↦
            rw (found, update_memory)
              (elim (Result-cases (update_checks p patch row)) [
                | inl (u, good) ↦ rw (good, update_found) (update_row-local p patch row w)
                | inr (e, bad) ↦ rw (bad, update_found) (SameLocally-refl _)
              ])
      ]

  delete_twice :
      (row : Memory) (w : World)
      → local_rows (delete_row client now row w) ≡ local_rows (delete_row client' now row w)
  unfolding delete_row
  delete_twice row w = put_row-local_row _ _ w.memories (
      rw (
        delete_remote-local_row client (record row { deleted_at = some now }) w.calls,
        delete_remote-local_row client' (record row { deleted_at = some now }) w.calls,
      ))

  -- Whatever two backends reply, `delete_memory` ends the same and leaves the same rows with either, but
  -- for the columns on the state of the backend.
  pub delete_memory-local :
      (user_id memory_id : ℕ) (w : World)
      → ((delete_memory client now user_id memory_id w).0
          ≡ (delete_memory client' now user_id memory_id w).0)
        × (local_rows (delete_memory client now user_id memory_id w).1
            ≡ local_rows (delete_memory client' now user_id memory_id w).1)
  unfolding delete_memory
  delete_memory-local user_id memory_id w =
      elim (Option-cases (find_owned user_id memory_id w.memories)) [
        | inl missing ↦ rw (missing, delete_memory) (refl, refl)
        | inr (row, found) ↦
            rw (found, delete_memory)
              (elim (Option-cases row.deleted_at) [
                | inl live ↦ simp live (refl, delete_twice row w)
                | inr (at, gone) ↦ simp gone (refl, refl)
              ])
      ]
