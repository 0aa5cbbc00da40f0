-- ===== src/Memory/Valid/Update.antt =====
-- `update_memory` keeps the table well formed.
use me.Base.{
  ℕ, ◌≡◌, refl, Bool, false, none, List, arith, is_empty, any, inl, inr, Option-cases, Text,
}
use me.Text.{strip, strip-strip}
use me.Platform.{Platform}
use me.Errors.{Result-cases, ok}
use me.Helpers.{canonical_hash, validate_tz, validate_location_pair}
use me.MemoryClient.{MemoryClient}
use me.Memory.{Memory, World}
use me.Memory.Table.{other_clash, is_owned_live, find_owned_live, update_violation}
use me.Memory.Table.Unique.{SameKey, any-SameKey, put_row-Unique}
use me.Memory.Remote.{send_to_supermemory_add, send_to_supermemory_patch}
use me.Memory.Update.{
  Patch, Field, unset, set, update_checks, text_changed, apply_patch, send_update, update_flushed,
  update_row, update_found, update_memory,
}
use me.Memory.Valid.Rows.{IsRow, IsTable, AllRows-find, AllRows-put_row}

checked_tz :
    (p : Platform) (patch : Patch) (row : Memory)
    → update_checks p patch row ≡ ok tt
    → IsRow p row
    → validate_tz p (apply_patch p patch row).event_tz ≡ ok (apply_patch p patch row).event_tz
unfolding update_checks apply_patch validate_tz
checked_tz p patch row checked h = ground arith

checked_location :
    (p : Platform) (patch : Patch) (row : Memory)
    → update_checks p patch row ≡ ok tt
    → IsRow p row
    → validate_location_pair
        (apply_patch p patch row).location_lat
        (apply_patch p patch row).location_lng
      ≡ ok tt
unfolding update_checks apply_patch
checked_location p patch row checked h = ground arith

-- The text and the digest of the patched row go together.
checked_text :
    (p : Platform) (patch : Patch) (row : Memory)
    → update_checks p patch row ≡ ok tt
    → IsRow p row
    → (strip (apply_patch p patch row).text ≡ (apply_patch p patch row).text)
      × (is_empty (apply_patch p patch row).text ≡ false)
      × ((apply_patch p patch row).content_hash ≡ canonical_hash p (apply_patch p patch row).text)
unfolding update_checks apply_patch
checked_text p patch row checked h = go patch.text refl
  where
    go :
        (t : Field Text)
        → patch.text ≡ t
        → (strip (apply_patch p patch row).text ≡ (apply_patch p patch row).text)
          × (is_empty (apply_patch p patch row).text ≡ false)
          × ((apply_patch p patch row).content_hash
              ≡ canonical_hash p (apply_patch p patch row).text)
    go unset e = ground arith
    go (set text) e = ground (arith, strip-strip text)

apply_patch-IsRow :
    (p : Platform) (patch : Patch) (row : Memory)
    → update_checks p patch row ≡ ok tt
    → IsRow p row
    → IsRow p (apply_patch p patch row)
apply_patch-IsRow p patch row checked h =
    let (stripped, filled, hash) = checked_text p patch row checked h in
    record {
      text_stripped = stripped;
      text_filled = filled;
      hashed = hash;
      zoned = checked_tz p patch row checked h;
      located = checked_location p patch row checked h;
      synced_id = unfold apply_patch in ground arith;
      synced_clean = unfold apply_patch in ground arith;
      pending_deleted = unfold apply_patch in ground arith;
      pending_id = unfold apply_patch in ground arith;
    }

pub send_update-SameKey :
    (client : MemoryClient) (now : ℕ) (changed : Bool) (row : Memory)
    → SameKey row (send_update client now changed row).0
unfolding send_update send_to_supermemory_add send_to_supermemory_patch
send_update-SameKey client now changed row = ground arith

send_update-IsRow :
    (p : Platform) (client : MemoryClient) (now : ℕ) (changed : Bool) (row : Memory)
    → IsRow p row
    → IsRow p (send_update client now changed row).0
unfolding send_update send_to_supermemory_add send_to_supermemory_patch
send_update-IsRow p client now changed row h = ground arith

pub update_violation-none :
    (r : Memory) (rows : List Memory)
    → update_violation r rows ≡ none
    → any (other_clash r) rows ≡ false
unfolding update_violation
update_violation-none r rows h = ground arith

module _ (p : Platform) (client : MemoryClient) (now : ℕ) (patch : Patch) where
  update_row-IsTable :
      (row : Memory) (w : World)
      → update_checks p patch row ≡ ok tt
      → IsRow p row
      → IsTable p w.memories
      → IsTable p (update_row p client now patch row w).1.memories
  unfolding update_row update_flushed
  update_row-IsTable row w checked h t =
      let row' = apply_patch p patch row in
      let sent = (send_update client now (text_changed patch.text row) row').0 in
      elim (Option-cases (update_violation row' w.memories)) [
        | inr (c, bad) ↦ rw (bad, update_row) t
        | inl fine ↦
            rw (fine, update_row)
              (record {
                each_row = AllRows-put_row p sent w.memories t.each_row (
                    send_update-IsRow p client now _ row'
                      (apply_patch-IsRow p patch row checked h));
                unique = put_row-Unique sent w.memories t.unique (
                    any-SameKey row' sent w.memories (send_update-SameKey client now _ row')
                      (update_violation-none row' w.memories fine));
              })
      ]

  -- Updating keeps the table well formed: on every error it is unchanged, and a written row meets
  -- every condition, whatever the patch and the reply of the backend.
  pub update_memory-IsTable :
      (user_id memory_id : ℕ) (w : World)
      → IsTable p w.memories
      → IsTable p (update_memory p client now user_id memory_id patch w).1.memories
  unfolding update_memory update_found
  update_memory-IsTable user_id memory_id w t =
      elim (Option-cases (find_owned_live user_id memory_id w.memories)) [
        | inl missing ↦ rw (missing, update_memory) t
        | inr (row, found) ↦
            let h =
              AllRows-find p (is_owned_live user_id memory_id) w.memories row t.each_row found in
            rw (found, update_memory)
              (elim (Result-cases (update_checks p patch row)) [
                | inl (u, good) ↦ rw (good, update_found) (update_row-IsTable row w good h t)
                | inr (e, bad) ↦ rw (bad, update_found) t
              ])
      ]
