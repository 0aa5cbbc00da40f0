-- ===== src/Agent/Folding.antt =====
-- What `_stream_one_turn` of app/agents/runtime.py makes of the fragments of a stream.

use me.Stream.Invariant.{streamed_text}
use mathlib.Core.List.{append_assoc, append-nil}
use me.Base.{
  ℕ, ◌≡◌, refl, ◌∙◌, sym, ap, Bool, Option, none, some, List, [], ◌∷◌, ◌++◌, map, inl, inr, arith,
  Text, if◌then◌else◌, is_empty, Bool-cases, Option-cases, ◌==◌, select,
}
use me.Stream.{Packet}
use me.Agent.{ToolDelta, Choice, PartialToolCall}
use me.Agent.Turn.{
  CallsByIdx, TurnState, empty_call, overwrite, fragment, fold_function, fold_delta, update_entry,
  fold_tool_call_deltas, content_packets, fold_choice, stream_chunks,
}

streamed_content :
    (content : Option Text) (packets : List Packet)
    → streamed_text (content_packets content ++ packets) ≡ fragment content ++ streamed_text packets
unfolding streamed_text content_packets fragment
streamed_content none packets = refl
streamed_content (some []) packets = refl
streamed_content (some (c ∷ t)) packets = refl

pub stream_chunks-text :
    (chunks : List (List Choice)) (s : TurnState)
    → (stream_chunks chunks s).1.text ≡ s.text ++ streamed_text (stream_chunks chunks s).0
unfolding stream_chunks streamed_text fold_choice
stream_chunks-text [] s = sym (append-nil s.text)
stream_chunks-text ([] ∷ chunks) s = stream_chunks-text chunks s
stream_chunks-text ((choice ∷ others) ∷ chunks) s =
    stream_chunks-text chunks (fold_choice choice s)
    ∙ append_assoc s.text (fragment choice.content) _
    ∙ ap (λ t. s.text ++ t) (sym (streamed_content choice.content _))

-- The fragments of all chunks, in order.
pub all_deltas : List (List Choice) → List ToolDelta
all_deltas [] = []
all_deltas ([] ∷ chunks) = all_deltas chunks
all_deltas ((choice ∷ others) ∷ chunks) = choice.tool_calls ++ all_deltas chunks

fold-append :
    (ds es : List ToolDelta) (calls : CallsByIdx)
    → fold_tool_call_deltas (ds ++ es) calls
      ≡ fold_tool_call_deltas es (fold_tool_call_deltas ds calls)
unfolding fold_tool_call_deltas
fold-append [] es calls = refl
fold-append (d ∷ ds) es calls = fold-append ds es (update_entry d calls)

pub stream_chunks-calls :
    (chunks : List (List Choice)) (s : TurnState)
    → (stream_chunks chunks s).1.tool_calls_by_idx
      ≡ fold_tool_call_deltas (all_deltas chunks) s.tool_calls_by_idx
unfolding stream_chunks all_deltas fold_choice fold_tool_call_deltas
stream_chunks-calls [] s = refl
stream_chunks-calls ([] ∷ chunks) s = stream_chunks-calls chunks s
stream_chunks-calls ((choice ∷ others) ∷ chunks) s =
    stream_chunks-calls chunks (fold_choice choice s)
    ∙ sym (fold-append choice.tool_calls (all_deltas chunks) s.tool_calls_by_idx)

abbrev pub is_index : ℕ → ToolDelta → Bool
is_index i tc = tc.index == i

-- The last value that is given and not empty.
pub last_given : List (Option Text) → Text
last_given [] = []
last_given (v ∷ vs) = let rest = last_given vs in if is_empty rest then fragment v else rest

abbrev pub delta_id : ToolDelta → Option Text
delta_id tc = tc.id

abbrev pub delta_name : ToolDelta → Option Text
delta_name tc = elim tc.function [ none ↦ none | some fn ↦ fn.name ]

abbrev pub delta_arguments : ToolDelta → Option Text
delta_arguments tc = elim tc.function [ none ↦ none | some fn ↦ fn.arguments ]

pub joined : List (Option Text) → Text
joined [] = []
joined (v ∷ vs) = fragment v ++ joined vs

-- The call that fragments of one index make up: its last id, its last name, all its arguments.
abbrev pub call_of : List ToolDelta → PartialToolCall
call_of ds = record {
  id = last_given (map delta_id ds);
  name = last_given (map delta_name ds);
  args = joined (map delta_arguments ds);
}

-- The folding, entry by entry.
unfoldable pub entry_at : ℕ → CallsByIdx → PartialToolCall
entry_at i [] = empty_call
entry_at i ((k, entry) ∷ calls) = if k == i then entry else entry_at i calls

pub fold_entry : List ToolDelta → PartialToolCall → PartialToolCall
fold_entry [] e = e
fold_entry (d ∷ ds) e = fold_entry ds (fold_delta d e)

entry_at-update_entry :
    (i : ℕ) (d : ToolDelta) (calls : CallsByIdx)
    → entry_at i (update_entry d calls)
      ≡ (if d.index == i then fold_delta d (entry_at i calls) else entry_at i calls)
unfolding entry_at update_entry
entry_at-update_entry i d [] = ground arith
entry_at-update_entry i d ((k, e) ∷ calls) = ground (arith, entry_at-update_entry i d calls)

pub entry_at-fold :
    (i : ℕ) (ds : List ToolDelta) (calls : CallsByIdx)
    → entry_at i (fold_tool_call_deltas ds calls)
      ≡ fold_entry (select (is_index i) ds) (entry_at i calls)
unfolding fold_tool_call_deltas fold_entry select
entry_at-fold i [] calls = refl
entry_at-fold i (d ∷ ds) calls = elim (Bool-cases (d.index == i)) [
  | inl e ↦ entry_at-fold i ds (update_entry d calls) ∙ rw (entry_at-update_entry i d calls, e) refl
  | inr e ↦ entry_at-fold i ds (update_entry d calls) ∙ rw (entry_at-update_entry i d calls, e) refl
]

-- One entry collects the last id and name, and all arguments.
later : Text → Text → Text
later now rest = if is_empty rest then now else rest

overwrite-later :
    (v : Option Text) (now rest : Text)
    → later (overwrite v now) rest ≡ later now (if is_empty rest then fragment v else rest)
unfolding later overwrite fragment
overwrite-later none now rest = ground arith
overwrite-later (some t) now rest = ground arith

record Folded (ds : List ToolDelta) (e : PartialToolCall) : Type 0 where
  same_id : (fold_entry ds e).id ≡ later e.id (last_given (map delta_id ds))
  same_name : (fold_entry ds e).name ≡ later e.name (last_given (map delta_name ds))
  same_args : (fold_entry ds e).args ≡ e.args ++ joined (map delta_arguments ds)

fold_delta-name :
    (d : ToolDelta) (e : PartialToolCall) → (fold_delta d e).name ≡ overwrite (delta_name d) e.name
unfolding fold_delta overwrite
fold_delta-name d e = elim (Option-cases d.function) [
  | inl h ↦ rw (h, fold_function) refl
  | inr (fn, h) ↦ rw (h, fold_function) refl
]

fold_delta-args :
    (d : ToolDelta) (e : PartialToolCall)
    → (fold_delta d e).args ≡ e.args ++ fragment (delta_arguments d)
unfolding fold_delta fragment
fold_delta-args d e = elim (Option-cases d.function) [
  | inl h ↦ rw (h, fold_function) (sym (append-nil e.args))
  | inr (fn, h) ↦ rw (h, fold_function) refl
]

fold_delta-id : (d : ToolDelta) (e : PartialToolCall) → (fold_delta d e).id ≡ overwrite d.id e.id
unfolding fold_delta
fold_delta-id d e = elim (Option-cases d.function) [
  | inl h ↦ rw (h, fold_function) refl
  | inr (fn, h) ↦ rw (h, fold_function) refl
]

fold_entry-Folded : (ds : List ToolDelta) (e : PartialToolCall) → Folded ds e
unfolding fold_entry last_given joined
fold_entry-Folded [] e = record {
  same_id = unfold later in refl;
  same_name = unfold later in refl;
  same_args = sym (append-nil e.args);
}
fold_entry-Folded (d ∷ ds) e =
    let f = fold_entry-Folded ds (fold_delta d e) in
    record {
      same_id =
          f.same_id
          ∙ rw (fold_delta-id d e) (overwrite-later d.id e.id (last_given (map delta_id ds)));
      same_name =
          f.same_name
          ∙ rw (fold_delta-name d e)
              (overwrite-later (delta_name d) e.name (last_given (map delta_name ds)));
      same_args =
          f.same_args
          ∙ rw (fold_delta-args d e) (
              append_assoc e.args (fragment (delta_arguments d)) (joined (map delta_arguments ds)));
    }

later_nil : (t : Text) → later [] t ≡ t
unfolding later
later_nil [] = refl
later_nil (c ∷ t) = refl

pub fold_entry-call_of : (ds : List ToolDelta) → fold_entry ds empty_call ≡ call_of ds
fold_entry-call_of ds =
    let f = fold_entry-Folded ds empty_call in
    let i = f.same_id ∙ later_nil _ in
    let n = f.same_name ∙ later_nil _ in λ k. record { id = i k; name = n k; args = f.same_args k }
