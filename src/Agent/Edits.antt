-- ===== src/Agent/Edits.antt =====
-- What `manage_memory` of app/agents/tools/memory.py changes in a memory.
use me.Base.{
  ℕ, ◌≡◌, refl, sym, ◌∙◌, ap, Option, none, some, inl, inr, arith, Text, text_eq, text_eq_iff,
  Bool-cases, Option-cases,
}
use me.Text.{strip}
use me.Errors.{Result, ok, err, Result-cases}
use me.Platform.{Platform}
use me.MemoryClient.{MemoryClient}
use me.Memory.{Memory, World}
use me.Memory.Table.{find_owned_live}
use me.Memory.Update.{
  Patch, Field, unset, set, merge, with_text, apply_patch, update_checks, update_flushed,
  update_row, update_found, update_memory, flush_error, text_changed,
}
use me.Memory.Local.{local_row, send_update-local_row}
use me.Agent.{returned}
use me.Agent.Arguments.{ManageMemoryArgs, MemoryAgentView, memory_detail, Pydantic}
use me.Agent.Tools.{
  AgentContext, agent_view, provided, provided_nullable, unset_unprovided, detail, run_update,
}

-- What an update leaves of a row, but for the columns of the backend.
record Updated (p : Platform) (patch : Patch) (user_id memory_id : ℕ) (r : Memory) (w : World)
    : Type 0 where
  old : Memory
  found : find_owned_live user_id memory_id w.memories ≡ some old
  edited : local_row r ≡ local_row (apply_patch p patch old)

module _ (p : Platform) (client : MemoryClient) (now : ℕ) (patch : Patch) where
  update_row-ok :
      (row r : Memory) (w : World)
      → (update_row p client now patch row w).0 ≡ ok r
      → local_row r ≡ local_row (apply_patch p patch row)
  unfolding update_row update_flushed flush_error
  update_row-ok row r w h =
      let same =
        send_update-local_row client now (text_changed patch.text row) (apply_patch p patch row) in
      ground (arith, same)

  update_found-ok :
      (row r : Memory) (w : World)
      → (update_found p client now patch row w).0 ≡ ok r
      → local_row r ≡ local_row (apply_patch p patch row)
  unfolding update_found
  update_found-ok row r w h = elim (Result-cases (update_checks p patch row)) [
    | inl (u, good) ↦ update_row-ok row r w (rw (good, update_found) at h)
    | inr (e, bad) ↦ absurd (ground arith)
  ]

  update_memory-ok :
      (user_id memory_id : ℕ) (r : Memory) (w : World)
      → (update_memory p client now user_id memory_id patch w).0 ≡ ok r
      → Updated p patch user_id memory_id r w
  unfolding update_memory
  update_memory-ok user_id memory_id r w h =
      elim (Option-cases (find_owned_live user_id memory_id w.memories)) [
        | inl e ↦ absurd (ground arith)
        | inr (old, e) ↦ record {
          old = old;
          found = e;
          edited = update_found-ok old r w (ground arith);
        }
      ]

-- What the model gives, or else what was there.
abbrev pub given {ℓ} : {A : Type ℓ} → Option A → A → A
given none old = old
given (some new) old = new

abbrev pub given_nullable {ℓ} : {A : Type ℓ} → Option A → Option A → Option A
given_nullable none old = old
given_nullable (some new) old = some new

abbrev pub given_text : Option Text → Text → Text
given_text none old = old
given_text (some new) old = strip new

-- The memory after an update, as the model should see it.
abbrev pub edited_view : ManageMemoryArgs → Memory → MemoryAgentView
edited_view a old = record {
  id = old.id;
  text = given_text a.text old.text;
  event_date = given a.event_date old.event_date;
  event_time = given_nullable a.event_time old.event_time;
  event_tz = given a.event_tz old.event_tz;
  location_lat = given_nullable a.location_lat old.location_lat;
  location_lng = given_nullable a.location_lng old.location_lng;
  location_label = given_nullable a.location_label old.location_label;
}

merge-provided : {A : Type 0} (o : Option A) (old : A) → merge (provided o) old ≡ given o old
merge-provided none old = refl
merge-provided (some v) old = refl

merge-provided_nullable :
    {A : Type 0} (o old : Option A) → merge (provided_nullable o) old ≡ given_nullable o old
merge-provided_nullable none old = refl
merge-provided_nullable (some v) old = refl

with_text-text :
    (p : Platform) (o : Option Text) (row : Memory)
    → (with_text p (provided o) row).text ≡ given_text o row.text
unfolding with_text
with_text-text p none row = refl
with_text-text p (some t) row = elim (Bool-cases (text_eq (strip t) row.text)) [
  | inl e ↦ rw e (sym ((text_eq_iff (strip t) row.text).0 e))
  | inr e ↦ rw e refl
]

with_text-id :
    (p : Platform) (patch : Field Text) (row : Memory) → (with_text p patch row).id ≡ row.id
unfolding with_text
with_text-id p unset row = refl
with_text-id p (set t) row = ground arith

edited_view-apply_patch :
    (p : Platform) (a : ManageMemoryArgs) (old : Memory)
    → agent_view (apply_patch p (unset_unprovided a) old) ≡ edited_view a old
unfolding apply_patch unset_unprovided
edited_view-apply_patch p a old =
    rw
      (
        with_text-id p (provided a.text) old,
        with_text-text p a.text old,
        merge-provided a.event_date old.event_date,
        merge-provided a.event_tz old.event_tz,
        merge-provided_nullable a.event_time old.event_time,
        merge-provided_nullable a.location_lat old.location_lat,
        merge-provided_nullable a.location_lng old.location_lng,
        merge-provided_nullable a.location_label old.location_label,
      )
      refl

module _ (py : Pydantic) (ctx : AgentContext) where
  detail-returned :
      (r : Result Memory × World) (v : MemoryAgentView)
      → (detail py ctx r).0 ≡ returned (memory_detail v)
      → (row : Memory) × (r.0 ≡ ok row) × (agent_view row ≡ v)
  unfolding detail
  detail-returned (ok row, w) v h = (row, refl, ground arith)
  detail-returned (err e, w) v h = absurd (ground arith)

  -- If an update by the model returns a memory, the memory it names was a live one of the user, and each
  -- field of the result is what the model gave (the text without the space around it), or what was
  -- there before if the model left the field out.
  pub run_update-view :
      (a : ManageMemoryArgs) (memory_id : ℕ) (v : MemoryAgentView) (w : World)
      → (run_update py ctx a (some memory_id) w).0 ≡ returned (memory_detail v)
      → (old : Memory) × (find_owned_live ctx.user_id memory_id w.memories ≡ some old)
        × (v ≡ edited_view a old)
  unfolding run_update
  run_update-view a memory_id v w h =
      let (row, there, seen) = detail-returned _ v h in
      let u =
        update_memory-ok ctx.platform ctx.memory_client (ctx.now w) (unset_unprovided a) ctx.user_id
          memory_id row w there in
      (
        u.old,
        u.found,
        sym seen ∙ ap agent_view u.edited ∙ edited_view-apply_patch ctx.platform a u.old,
      )
