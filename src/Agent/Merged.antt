-- ===== src/Agent/Merged.antt =====
-- The tool calls and the text of a whole turn of app/agents/runtime.py.
use me.Stream.Invariant.{streamed_text}
use mathlib.Core.Path.{fun_ext, ap₂}
use me.Base.{
  ℕ, ◌≡◌, refl, ◌∙◌, sym, ap, Bool, false, List, [], ◌∷◌, map, inl, inr, arith, if◌then◌else◌,
  Bool-cases, ◌||◌, ◌==◌, any, select,
}
use me.Agent.{ToolDelta, ModelStream, PartialToolCall, TurnResult}
use me.Agent.Turn.{
  CallsByIdx, finished, update_entry, fold_tool_call_deltas, stream_chunks, new_turn,
  stream_one_turn, value_of, turn_result,
}
use me.Agent.Folding.{
  all_deltas, is_index, call_of, entry_at, entry_at-fold, fold_entry-call_of, stream_chunks-text,
  stream_chunks-calls,
}
use me.Agent.Turn.{turn_end-finished}

-- The indices of the fragments, each once, in the order of first appearance.
pub add_index : ℕ → List ℕ → List ℕ
add_index i [] = i ∷ []
add_index i (k ∷ ks) = if k == i then k ∷ ks else k ∷ add_index i ks

pub add_indices : List ToolDelta → List ℕ → List ℕ
add_indices [] ks = ks
add_indices (d ∷ ds) ks = add_indices ds (add_index d.index ks)

-- The keys of the dict.
abbrev key_of : ℕ × PartialToolCall → ℕ
key_of x = x.0

abbrev is_key : ℕ → ℕ → Bool
is_key i k = k == i

abbrev Distinct : List ℕ → Type 0
Distinct [] = Unit
Distinct (k ∷ ks) = (any (is_key k) ks ≡ false) × Distinct ks

keys-update_entry :
    (d : ToolDelta) (calls : CallsByIdx)
    → map key_of (update_entry d calls) ≡ add_index d.index (map key_of calls)
unfolding update_entry add_index
keys-update_entry d [] = refl
keys-update_entry d ((k, e) ∷ calls) = ground (arith, keys-update_entry d calls)

keys-fold :
    (ds : List ToolDelta) (calls : CallsByIdx)
    → map key_of (fold_tool_call_deltas ds calls) ≡ add_indices ds (map key_of calls)
unfolding fold_tool_call_deltas add_indices
keys-fold [] calls = refl
keys-fold (d ∷ ds) calls =
    keys-fold ds (update_entry d calls) ∙ ap (add_indices ds) (keys-update_entry d calls)

any-add_index :
    (i j : ℕ) (ks : List ℕ) → any (is_key i) (add_index j ks) ≡ (any (is_key i) ks || j == i)
unfolding add_index any
any-add_index i j [] = ground arith
any-add_index i j (k ∷ ks) = ground (arith, any-add_index i j ks)

add_index-Distinct : (i : ℕ) (ks : List ℕ) → Distinct ks → Distinct (add_index i ks)
unfolding add_index any
add_index-Distinct i [] h = (refl, tt)
add_index-Distinct i (k ∷ ks) h = elim (Bool-cases (k == i)) [
  | inl e ↦ rw e h
  | inr e ↦ rw e (any-add_index k i ks ∙ ground arith, add_index-Distinct i ks h.1)
]

add_indices-Distinct :
    (ds : List ToolDelta) (ks : List ℕ) → Distinct ks → Distinct (add_indices ds ks)
unfolding add_indices
add_indices-Distinct [] ks h = h
add_indices-Distinct (d ∷ ds) ks h = add_indices-Distinct ds _ (add_index-Distinct d.index ks h)

-- A dict is the list of its lookups.
skip_entry :
    (k : ℕ) (e : PartialToolCall) (calls : CallsByIdx) (ks : List ℕ)
    → any (is_key k) ks ≡ false
    → map (λ i. entry_at i ((k, e) ∷ calls)) ks ≡ map (λ i. entry_at i calls) ks
unfolding any
skip_entry k e calls [] h = refl
skip_entry k e calls (j ∷ ks) h =
    ap₂ ◌∷◌ (unfold entry_at in ground arith) (skip_entry k e calls ks (ground arith))

values_entries :
    (calls : CallsByIdx)
    → Distinct (map key_of calls)
    → map value_of calls ≡ map (λ i. entry_at i calls) (map key_of calls)
values_entries [] h = refl
values_entries ((k, e) ∷ calls) h =
    ap₂ ◌∷◌ (unfold entry_at in ground arith)
      (values_entries calls h.1 ∙ sym (skip_entry k e calls (map key_of calls) h.0))

-- The merged calls, for each index.
abbrev pub merged_calls : List ToolDelta → List PartialToolCall
merged_calls ds = map (λ i. call_of (select (is_index i) ds)) (add_indices ds [])

values-fold : (ds : List ToolDelta) → map value_of (fold_tool_call_deltas ds []) ≡ merged_calls ds
unfolding entry_at
values-fold ds =
    let keys = keys-fold ds [] in
    let entries : (i : ℕ)
        → entry_at i (fold_tool_call_deltas ds []) ≡ call_of (select (is_index i) ds) =
      λ i. entry_at-fold i ds [] ∙ fold_entry-call_of (select (is_index i) ds) in
    values_entries (fold_tool_call_deltas ds []) (rw keys (add_indices-Distinct ds [] tt))
    ∙ rw (keys, fun_ext entries) refl

-- The turn that a stream without a failure ends in: its text is the text that was streamed, and it
-- has one tool call for each index, in the order of first appearance, with the last id and the last
-- name that the fragments of that index give, and all their arguments joined, however the fragments
-- are spread over the chunks.
pub stream_one_turn-finished :
    (stream : ModelStream) (turn : TurnResult)
    → (stream_one_turn stream).1 ≡ finished turn
    → (turn.text ≡ streamed_text (stream_one_turn stream).0)
      × (turn.tool_calls ≡ merged_calls (all_deltas stream.chunks))
unfolding stream_one_turn
stream_one_turn-finished stream turn h =
    let s = (stream_chunks stream.chunks new_turn).1 in
    let e : turn_result s ≡ turn = turn_end-finished stream.failure s turn h in
    (
      sym (ap (λ (t : TurnResult). t.text) e) ∙ stream_chunks-text stream.chunks new_turn,
      sym (ap (λ (t : TurnResult). t.tool_calls) e)
          ∙ ap (map value_of) (stream_chunks-calls stream.chunks new_turn)
          ∙ values-fold (all_deltas stream.chunks),
    )
