-- ===== src/Memory/Retry.antt =====
-- A retried `create_memory` returns the row of the first call and changes nothing.
use me.Base.{
  ◌⊎◌, ℕ, ◌≡◌, refl, none, some, List, [], ◌∷◌, arith, find, any, inl, inr, Option-cases,
  text_eq_self,
}
use me.Platform.{Platform}
use me.Errors.{Result-cases, ok}
use me.MemoryClient.{MemoryClient}
use me.Memory.{Memory, World}
use me.Memory.Table.{
  Inserted, inserted, conflict, violated, insert_on_conflict, live_clash, put_row,
}
use me.Memory.Remote.{send_add_call, send_to_supermemory_add}
use me.Memory.Create.{
  create_memory_passed, create_memory_refused, create_checked_fresh, CreateArgs, create_checks,
  idempotent_hit, new_row, create_inserted, create_insert, create_checked, create_memory,
  has_content,
}

-- Whether the INSERT is a conflict does not depend on what the server draws.
any_clash-new_row :
    (p : Platform) (now new_id now' new_id' : ℕ) (a : CreateArgs) (rows : List Memory)
    → any (live_clash (new_row p now new_id a)) rows
      ≡ any (live_clash (new_row p now' new_id' a)) rows
unfolding any live_clash new_row
any_clash-new_row p now new_id now' new_id' a [] = refl
any_clash-new_row p now new_id now' new_id' a (r ∷ rows) =
    ground (arith, any_clash-new_row p now new_id now' new_id' a rows)

module _ (p : Platform) (client client' : MemoryClient) (now new_id now' new_id' : ℕ)
    (a : CreateArgs) where
  retry_conflict :
      (rows : List Memory)
      → insert_on_conflict (new_row p now new_id a) rows ≡ conflict
      → insert_on_conflict (new_row p now' new_id' a) rows ≡ conflict
  unfolding insert_on_conflict new_row
  retry_conflict rows h = ground (arith, any_clash-new_row p now new_id now' new_id' a rows)

  abbrev sent : Memory
  sent = send_to_supermemory_add client now (new_row p now new_id a)

  insert_shape :
      (rows after : List Memory)
      → insert_on_conflict (new_row p now new_id a) rows ≡ inserted after
      → put_row sent after ≡ sent ∷ rows
  unfolding insert_on_conflict put_row new_row send_to_supermemory_add
  insert_shape rows after h = ground arith

  checks_kept :
      (rows after : List Memory)
      → insert_on_conflict (new_row p now new_id a) rows ≡ inserted after
      → insert_on_conflict (new_row p now' new_id' a) (sent ∷ rows) ≡ conflict
  unfolding insert_on_conflict any live_clash new_row send_to_supermemory_add
  checks_kept rows after h = ground (arith, text_eq_self (new_row p now new_id a).content_hash)

  sent_found :
      (rows : List Memory)
      → find
          (has_content (new_row p now' new_id' a).user_id (new_row p now' new_id' a).content_hash)
          (sent ∷ rows)
        ≡ some sent
  unfolding find new_row send_to_supermemory_add
  sent_found rows = ground (arith, text_eq_self (new_row p now new_id a).content_hash)

  sent_hit :
      (rows : List Memory)
      → (idempotent_hit a (sent ∷ rows) ≡ some sent) ⊎ (idempotent_hit a (sent ∷ rows) ≡ none)
  unfolding idempotent_hit find new_row send_to_supermemory_add
  sent_hit rows = ground arith

  sent_live : sent.deleted_at ≡ none
  unfolding new_row send_to_supermemory_add
  sent_live = ground arith

  checked_hit :
      (w : World) {r : Memory}
      → idempotent_hit a w.memories ≡ some r
      → r.deleted_at ≡ none
      → create_checked p client' now' new_id' a w ≡ (ok r, w)
  unfolding create_checked
  checked_hit w hit live = ground arith

  checked_conflict :
      (w : World) {r : Memory}
      → idempotent_hit a w.memories ≡ none
      → insert_on_conflict (new_row p now' new_id' a) w.memories ≡ conflict
      → find
          (has_content (new_row p now' new_id' a).user_id (new_row p now' new_id' a).content_hash)
          w.memories
        ≡ some r
      → create_checked p client' now' new_id' a w ≡ (ok r, w)
  unfolding create_checked create_insert create_inserted
  checked_conflict w miss clash hit = ground arith

  conflict_result :
      (w : World) {r : Memory}
      → (create_inserted client now (new_row p now new_id a) w conflict).0 ≡ ok r
      → find
          (has_content (new_row p now' new_id' a).user_id (new_row p now' new_id' a).content_hash)
          w.memories
        ≡ some r
  unfolding create_inserted new_row
  conflict_result w h = ground arith

  retry_fresh :
      (w : World) (o : Inserted) {r : Memory}
      → idempotent_hit a w.memories ≡ none
      → insert_on_conflict (new_row p now new_id a) w.memories ≡ o
      → (create_inserted client now (new_row p now new_id a) w o).0 ≡ ok r
      → create_checked p client' now' new_id' a
          (create_inserted client now (new_row p now new_id a) w o).1
        ≡ (ok r, (create_inserted client now (new_row p now new_id a) w o).1)
  unfolding create_inserted
  retry_fresh w conflict fresh e h =
      checked_conflict w fresh (retry_conflict w.memories e) (conflict_result w h)
  retry_fresh w (violated c) fresh e h = absurd (ground arith)
  retry_fresh w (inserted rows) {r} fresh e h =
      let same : sent ≡ r = ground arith in
      let w' : World = record {
        memories = sent ∷ w.memories;
        calls = send_add_call (new_row p now new_id a) ∷ w.calls;
      } in
      rw (insert_shape w.memories rows e, ← same)
        (elim (sent_hit w.memories) [
          | inl hit ↦ checked_hit w' hit sent_live
          | inr miss ↦
              checked_conflict w' miss (checks_kept w.memories rows e) (sent_found w.memories)
        ])

  checked_known :
      (w : World) (s : Memory) {r : Memory}
      → idempotent_hit a w.memories ≡ some s
      → (create_checked p client now new_id a w).0 ≡ ok r
      → ((create_checked p client now new_id a w).1 ≡ w)
        × (idempotent_hit a w.memories ≡ some r)
        × (r.deleted_at ≡ none)
  unfolding create_checked
  checked_known w s hit h = ground arith

  retry_checked :
      (w : World) {r : Memory}
      → (create_checked p client now new_id a w).0 ≡ ok r
      → create_checked p client' now' new_id' a (create_checked p client now new_id a w).1
        ≡ (ok r, (create_checked p client now new_id a w).1)
  unfolding create_insert
  retry_checked w {r} h = elim (Option-cases (idempotent_hit a w.memories)) [
    | inl fresh ↦
        let step = create_checked_fresh p client now new_id a w fresh in
        rw step (
          retry_fresh w (insert_on_conflict (new_row p now new_id a) w.memories) fresh refl
            (rw step at h))
    | inr (s, hit) ↦
        let (same, again, live) = checked_known w s hit h in rw same (checked_hit w again live)
  ]

  -- A `create_memory` that is sent again with the same arguments returns the row that the first
  -- call returned, changes nothing and sends no request, whatever the backend and the server draw.
  pub create_memory_retry :
      (w : World) (r : Memory)
      → (create_memory p client now new_id a w).0 ≡ ok r
      → create_memory p client' now' new_id' a (create_memory p client now new_id a w).1
        ≡ (ok r, (create_memory p client now new_id a w).1)
  create_memory_retry w r h = elim (Result-cases (create_checks p a)) [
    | inl (u, good) ↦
        let step = create_memory_passed p client now new_id a w good in
        rw
          (
            step,
            create_memory_passed p client' now' new_id' a (create_checked p client now new_id a w).1
                good,
          )
          (retry_checked w (rw step at h))
    | inr (e, bad) ↦ absurd (ground (arith, create_memory_refused p client now new_id a w bad))
  ]
