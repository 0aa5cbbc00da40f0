-- ===== src/Memory/Valid/Create.antt =====
-- `create_memory` keeps the table well formed.
use me.Base.{text_eq_iff, ℕ, ◌≡◌, refl, false, List, [], ◌∷◌, arith, any, inl, inr, Option-cases}
use me.Text.{strip-strip}
use me.Platform.{Platform}
use me.Errors.{Result-cases, ok}
use me.Helpers.{validate_tz}
use me.MemoryClient.{MemoryClient}
use me.Memory.{Memory, World}
use me.Memory.Table.{
  Inserted, inserted, conflict, violated, live_clash, same_id, insert_on_conflict, put_row,
}
use me.Memory.Table.Unique.{clash, SameKey, insert-Unique}
use me.Memory.Remote.{send_to_supermemory_add}
use me.Memory.Create.{
  CreateArgs, create_checks, idempotent_hit, new_row, create_inserted, create_insert,
  create_checked, create_memory,
}
use me.Memory.Valid.Rows.{IsRow, IsTable}

sent-IsRow :
    (p : Platform) (client : MemoryClient) (now new_id : ℕ) (a : CreateArgs)
    → create_checks p a ≡ ok tt
    → IsRow p (send_to_supermemory_add client now (new_row p now new_id a))
unfolding create_checks new_row send_to_supermemory_add validate_tz
sent-IsRow p client now new_id a h = ground (arith, strip-strip a.text)

pub sent_row-SameKey :
    (client : MemoryClient) (now : ℕ) (row : Memory)
    → SameKey row (send_to_supermemory_add client now row)
unfolding send_to_supermemory_add
sent_row-SameKey client now row = ground arith

-- An accepted INSERT prepends the row, and violates no index.
pub insert_on_conflict_inserted :
    (r : Memory) (rows after : List Memory)
    → insert_on_conflict r rows ≡ inserted after
    → (after ≡ r ∷ rows) × (any (live_clash r) rows ≡ false) × (any (same_id r) rows ≡ false)
unfolding insert_on_conflict
insert_on_conflict_inserted r rows after h = ground arith

pub put_row_head :
    (r s : Memory) (rows : List Memory) → s.id ≡ r.id → put_row s (r ∷ rows) ≡ s ∷ rows
unfolding put_row
put_row_head r s rows e = ground arith

any-clash-SameKey :
    (r s : Memory) (rows : List Memory)
    → SameKey r s
    → any (clash r) rows ≡ false
    → any (clash s) rows ≡ false
unfolding any clash
any-clash-SameKey r s [] k h = refl
any-clash-SameKey r s (y ∷ rows) k h = ground (
  arith,
  text_eq_iff r.content_hash y.content_hash,
  text_eq_iff s.content_hash y.content_hash,
  any-clash-SameKey r s rows k,
)

module _ (p : Platform) (client : MemoryClient) (now new_id : ℕ) (a : CreateArgs) (w : World) where
  create_inserted-IsTable :
      (o : Inserted)
      → create_checks p a ≡ ok tt
      → insert_on_conflict (new_row p now new_id a) w.memories ≡ o
      → IsTable p w.memories
      → IsTable p (create_inserted client now (new_row p now new_id a) w o).1.memories
  unfolding create_inserted
  create_inserted-IsTable conflict checked e t = t
  create_inserted-IsTable (violated c) checked e t = t
  create_inserted-IsTable (inserted rows) checked e t =
      let row = new_row p now new_id a in
      let sent = send_to_supermemory_add client now row in
      let same : SameKey row sent = sent_row-SameKey client now row in
      let (shape, no_clash, no_id) = insert_on_conflict_inserted row w.memories rows e in
      rw (shape, put_row_head row sent w.memories same.same_row)
        (record {
          each_row = (sent-IsRow p client now new_id a checked, t.each_row);
          unique = (
            any-clash-SameKey row sent w.memories same
                (insert-Unique row w.memories no_clash no_id),
            t.unique,
          );
        })

  create_checked-IsTable :
      create_checks p a ≡ ok tt
      → IsTable p w.memories
      → IsTable p (create_checked p client now new_id a w).1.memories
  unfolding create_checked create_insert
  create_checked-IsTable checked t = elim (Option-cases (idempotent_hit a w.memories)) [
    | inl fresh ↦
        rw (fresh, create_checked)
          (create_inserted-IsTable (insert_on_conflict (new_row p now new_id a) w.memories) checked
            refl t)
    | inr (row, hit) ↦
        rw (hit, create_checked)
          (elim (Option-cases row.deleted_at) [
            | inl live ↦ simp live t
            | inr (at, gone) ↦ simp gone t
          ])
  ]

  -- Creating keeps the table well formed, whatever the backend replies and whatever id the server
  -- draws.
  pub create_memory-IsTable :
      IsTable p w.memories → IsTable p (create_memory p client now new_id a w).1.memories
  unfolding create_memory
  create_memory-IsTable t = elim (Result-cases (create_checks p a)) [
    | inl (u, good) ↦ rw (good, create_memory) (create_checked-IsTable good t)
    | inr (e, bad) ↦ rw (bad, create_memory) t
  ]
