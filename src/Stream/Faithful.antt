-- ===== src/Stream/Faithful.antt =====
-- What `stream_turn` of app/api/_chat_stream.py stores.
use mathlib.Core.List.{append_assoc, append-nil}
use me.Base.{
  ℕ, ◌<◌, ◌≡◌, refl, ap, ◌∙◌, Bool, Option, none, some, List, [], ◌∷◌, ◌++◌, map, arith, Text,
}
use me.Stream.{
  Packet, start, finish, error, text_delta, tool_start, tool_call, tool_end, Event, text_event,
}
use me.Stream.Steps.{
  Kind, text, tool, StepAssigner, new_assigner, lookup_step, open_text, step_for, with_step,
}
use me.Stream.State.{
  Events, StreamState, new_state, get_event, set_event, text_record, fold_events, fold, event_of,
  with_arguments, with_outcome, join, assistant_content,
}
use me.Stream.Turn.{AssistantRow, run_packets, final_state, stream_turn, stream_turn-row}
use me.Stream.Content.{AllBelow, Ascending, sort_steps_sorted}
use me.Stream.Invariant.{Good, streamed_text, same-IsChange, arguments-IsChange, outcome-IsChange}
use me.Stream.Content.{AllAbove}
use me.Stream.Fidelity.{Advances, tool-Advances, text_new, text_more}

above_last : (n s : ℕ) (e : Event) (events : Events) → AllAbove n (events ++ (s, e) ∷ []) → n < s
above_last n s e [] h = h.0
above_last n s e (x ∷ events) h = above_last n s e events h.1

Ascending-below :
    (s : ℕ) (e : Event) (events : Events) → Ascending (events ++ (s, e) ∷ []) → AllBelow s events
Ascending-below s e [] h = tt
Ascending-below s e (x ∷ events) h = (above_last x.0 s e events h.0, Ascending-below s e events h.1)

text-Advances :
    (delta : Text) (k : Option Kind) (t : Option ℕ) (n : ℕ) (l : List (Text × ℕ)) (events : Events)
    (said : Text)
    → Good (record { next = n; text_step = t; tool_steps = l; last_kind = k }) events said
    → Advances
        (open_text k (record { next = n; text_step = t; tool_steps = l; last_kind = k }))
        (λ s. set_event s (text_record s delta (get_event s events)) events)
        (said ++ delta)
unfolding open_text
text-Advances delta (some text) t n l events said g =
    let (s, init, c, at, shape) = g.opened in
    let a : StepAssigner = record {
      next = n;
      text_step = t;
      tool_steps = l;
      last_kind = some text;
    } in
    let g' : Good a (init ++ (s, text_event s c) ∷ []) said = rw shape at g in
    (
      s,
      at,
      rw shape (
          text_more delta a init s c said refl at
            (Ascending-below s (text_event s c) init g'.ascending) g'),
    )
text-Advances delta (some tool) t n l events said g = (
  n,
  refl,
  text_new delta (record { next = n; text_step = t; tool_steps = l; last_kind = some tool }) events
      said g,
)
text-Advances delta none t n l events said g = (
  n,
  refl,
  text_new delta (record { next = n; text_step = t; tool_steps = l; last_kind = none }) events said
      g,
)

-- A packet of the agent, with the step that it gets.
abbrev pub After : Packet → StepAssigner → Events → Text → Type 0
After p a events said =
    Good (step_for p a).1 (fold_events (with_step (step_for p a).0 p) events)
      (said ++ streamed_text (p ∷ []))

pub packet-Good :
    (p : Packet) (a : StepAssigner) (events : Events) (said : Text)
    → Good a events said
    → After p a events said
unfolding step_for with_step fold_events streamed_text
packet-Good (text_delta step delta) a events said g =
    let (s, at, g') =
      text-Advances delta a.last_kind a.text_step a.next a.tool_steps events said g in
    rw at (rw (append-nil delta) g')
packet-Good (tool_start step id name) a events said g =
    let (s, at, g') = tool-Advances id name (λ r. r) a events said same-IsChange g in
    rw at (rw (append-nil said) g')
packet-Good (tool_call step id name arguments) a events said g =
    let (s, at, g') =
      tool-Advances id name (with_arguments arguments) a events said (arguments-IsChange arguments)
        g in
    rw at (rw (append-nil said) g')
packet-Good (tool_end step id name status result err) a events said g =
    let (s, at, g') =
      tool-Advances id name (with_outcome status result err) a events said
        (outcome-IsChange status result err) g in
    rw at (rw (append-nil said) g')
packet-Good (start m s) a events said g = rw (append-nil said) g
packet-Good (finish m) a events said g = rw (append-nil said) g
packet-Good (error code message) a events said g = rw (append-nil said) g

streamed-cons :
    (p : Packet) (packets : List Packet)
    → streamed_text (p ∷ []) ++ streamed_text packets ≡ streamed_text (p ∷ packets)
unfolding streamed_text
streamed-cons (text_delta step delta) packets =
    ap (λ t. t ++ streamed_text packets) (append-nil delta)
streamed-cons (start m s) packets = refl
streamed-cons _ packets = refl

run-Good :
    (packets : List Packet) (a : StepAssigner) (st : StreamState) (said : Text)
    → Good a st.events said
    → (a' : StepAssigner) × Good a'
        (run_packets packets a st).1.events
        (said ++ streamed_text packets)
unfolding run_packets fold streamed_text
run-Good [] a st said g = (a, rw (append-nil said) g)
run-Good (p ∷ packets) a st said g =
    let (a', g') =
      run-Good packets (step_for p a).1 (fold (with_step (step_for p a).0 p) st)
        (said ++ streamed_text (p ∷ [])) (packet-Good p a st.events said g) in
    (
      a',
      rw (← streamed-cons p packets)
          (rw (← append_assoc said (streamed_text (p ∷ [])) (streamed_text packets)) g'),
    )

pub new-Good : Good new_assigner [] []
unfolding lookup_step join
new-Good = record {
  below = tt;
  ascending = tt;
  entries = tt;
  known = λ id s h. absurd (ground arith);
  opened = tt;
  content = refl;
}

pub final-Good :
    (packets : List Packet)
    → (a : StepAssigner) × Good a (final_state packets).events (streamed_text packets)
final-Good packets = run-Good packets new_assigner new_state [] new-Good

-- `stream_turn` stores, as the content of the assistant's row, the text of the text packets of the
-- agent, joined in the order in which they were streamed.
pub stream_turn-content :
    (m s c : ℕ) (stored : Bool) (packets : List Packet) (row : AssistantRow)
    → (stream_turn m s c stored packets).1 ≡ some row
    → row.content ≡ streamed_text packets
unfolding assistant_content
stream_turn-content m s c stored packets row h =
    let (a, g) = final-Good packets in
    ap (λ (r : AssistantRow). r.content) (stream_turn-row m s c stored packets row h)
    ∙ ap (λ (l : Events). join (map event_of l))
        (sort_steps_sorted (final_state packets).events g.ascending)
    ∙ g.content
