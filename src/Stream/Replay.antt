-- ===== src/Stream/Replay.antt =====
-- `replay_stream` of app/api/_chat_stream.py, folded again.
use mathlib.Core.List.{append_assoc, append-nil}
use me.Base.{
  ℕ, ◌≡◌, refl, sym, ap, ◌∙◌, Option, none, some, List, [], ◌∷◌, ◌++◌, map, arith, All, Text,
}
use me.Cursor.{Json}
use me.Stream.{
  Status, Packet, text_delta, tool_start, tool_call, tool_end, ToolEvent, Event, text_event,
  tool_event,
}
use me.Stream.State.{
  Events, get_event, set_event, new_tool_event, set_tool, text_record, fold_events, event_of,
  with_arguments, with_outcome,
}
use me.Stream.Content.{AllBelow, AllAbove, Ascending, get_event_new, set_event_new, AllBelow-append}

-- The packets of stored events, as they are stored.
unfoldable pub plain_call : ToolEvent → Option Json → List Packet
plain_call r none = []
plain_call r (some arguments) = tool_call (some r.step) r.tool_call_id r.tool arguments ∷ []

unfoldable pub plain_end : ToolEvent → Option Status → List Packet
plain_end r none = []
plain_end r (some status) =
    tool_end (some r.step) r.tool_call_id r.tool status r.result r.error ∷ []

unfoldable pub plain_event : Event → List Packet
unfolding plain_call plain_end
plain_event (text_event s content) = text_delta (some s) content ∷ []
plain_event (tool_event r) =
    tool_start (some r.step) r.tool_call_id r.tool ∷ plain_call r r.arguments
    ++ plain_end r r.status

unfoldable pub plain_events : List Event → List Packet
unfolding plain_event
plain_events [] = []
plain_events (e ∷ events) = plain_event e ++ plain_events events

-- What a client that folds the packets as they come has at the end.
unfoldable pub fold_all : List Packet → Events → Events
fold_all [] events = events
fold_all (p ∷ packets) events = fold_all packets (fold_events p events)

pub fold_all-append :
    (ps qs : List Packet) (events : Events)
    → fold_all (ps ++ qs) events ≡ fold_all qs (fold_all ps events)
unfolding fold_all
fold_all-append [] qs events = refl
fold_all-append (p ∷ ps) qs events = fold_all-append ps qs (fold_events p events)

-- An entry stands under the step of its event, and a tool call without a status has no outcome.
abbrev pub IsEntry : ℕ × Event → Type 0
IsEntry (k, text_event s content) = k ≡ s
IsEntry (k, tool_event r) = (k ≡ r.step) × (r.status ≡ none → (r.result ≡ none) × (r.error ≡ none))

pub get_event_last :
    (s : ℕ) (e : Event) (events : Events)
    → AllBelow s events
    → get_event s (events ++ (s, e) ∷ []) ≡ some e
unfolding get_event
get_event_last s e [] h = ground arith
get_event_last s e (x ∷ events) h = ground (arith, get_event_last s e events h.1)

pub set_event_last :
    (s : ℕ) (e e' : Event) (events : Events)
    → AllBelow s events
    → set_event s e' (events ++ (s, e) ∷ []) ≡ events ++ (s, e') ∷ []
unfolding set_event
set_event_last s e e' [] h = ground arith
set_event_last s e e' (x ∷ events) h = ground (arith, set_event_last s e e' events h.1)

-- A tool packet at the last step changes the record there.
set_tool_last :
    (s : ℕ) (id tool : Text) (change : ToolEvent → ToolEvent) (r : ToolEvent) (events : Events)
    → AllBelow s events
    → set_tool s id tool change (events ++ (s, tool_event r) ∷ [])
      ≡ events ++ (s, tool_event (change r)) ∷ []
unfolding set_tool
set_tool_last s id tool change r events h =
    rw (get_event_last s (tool_event r) events h) (set_event_last s _ _ events h)

set_tool_new :
    (s : ℕ) (id tool : Text) (change : ToolEvent → ToolEvent) (events : Events)
    → AllBelow s events
    → set_tool s id tool change events
      ≡ events ++ (s, tool_event (change (new_tool_event s id tool))) ∷ []
unfolding set_tool
set_tool_new s id tool change events h = rw (get_event_new s events h) (set_event_new s _ events h)

replayed_call : Option Json → ToolEvent → ToolEvent
replayed_call none r = r
replayed_call (some arguments) r = with_arguments arguments r

replayed_end : Option Status → ToolEvent → ToolEvent → ToolEvent
replayed_end none of r = r
replayed_end (some status) of r = with_outcome status of.result of.error r

fold-plain_call :
    (o : Option Json) (of r : ToolEvent) (events : Events)
    → AllBelow of.step events
    → fold_all (plain_call of o) (events ++ (of.step, tool_event r) ∷ [])
      ≡ events ++ (of.step, tool_event (replayed_call o r)) ∷ []
unfolding fold_all plain_call replayed_call fold_events
fold-plain_call none of r events h = refl
fold-plain_call (some arguments) of r events h =
    set_tool_last of.step of.tool_call_id of.tool (with_arguments arguments) r events h

fold-plain_end :
    (o : Option Status) (of r : ToolEvent) (events : Events)
    → AllBelow of.step events
    → fold_all (plain_end of o) (events ++ (of.step, tool_event r) ∷ [])
      ≡ events ++ (of.step, tool_event (replayed_end o of r)) ∷ []
unfolding fold_all plain_end replayed_end fold_events
fold-plain_end none of r events h = refl
fold-plain_end (some status) of r events h =
    set_tool_last of.step of.tool_call_id of.tool (with_outcome status of.result of.error) r events
      h

replayed_record :
    (args : Option Json) (status : Option Status) (r : ToolEvent)
    → r.arguments ≡ args
    → r.status ≡ status
    → (r.status ≡ none → (r.result ≡ none) × (r.error ≡ none))
    → replayed_end status r (replayed_call args (new_tool_event r.step r.tool_call_id r.tool)) ≡ r
unfolding replayed_end replayed_call
replayed_record none none r a s h = let k = h s in ground arith
replayed_record (some x) none r a s h = let k = h s in ground arith
replayed_record none (some y) r a s h = ground arith
replayed_record (some x) (some y) r a s h = ground arith

fold-plain_event :
    (x : ℕ × Event) (events : Events)
    → IsEntry x
    → AllBelow x.0 events
    → fold_all (plain_event (event_of x)) events ≡ events ++ x ∷ []
unfolding plain_event fold_events text_record fold_all
fold-plain_event (k, text_event s content) events e h =
    let below : AllBelow s events = rw e at h in
    rw (get_event_new s events below, text_record)
      (set_event_new s (text_event s content) events below)
    ∙ ap (λ (j : ℕ). events ++ (j, text_event s content) ∷ []) (sym e)
fold-plain_event (k, tool_event r) events e h =
    let below : AllBelow r.step events = rw e.0 at h in
    let opened = new_tool_event r.step r.tool_call_id r.tool in
    fold_all-append (plain_call r r.arguments) (plain_end r r.status)
      (set_tool r.step r.tool_call_id r.tool (λ r'. r') events)
    ∙ ap (λ (l : Events). fold_all (plain_end r r.status) (fold_all (plain_call r r.arguments) l))
        (set_tool_new r.step r.tool_call_id r.tool (λ r'. r') events below)
    ∙ ap (fold_all (plain_end r r.status)) (fold-plain_call r.arguments r opened events below)
    ∙ fold-plain_end r.status r (replayed_call r.arguments opened) events below
    ∙ ap (λ (r' : ToolEvent). events ++ (r.step, tool_event r') ∷ [])
        (replayed_record r.arguments r.status r refl refl e.1)
    ∙ ap (λ (j : ℕ). events ++ (j, tool_event r) ∷ []) (sym e.0)

all_below :
    (x : ℕ × Event) (done rest : Events)
    → AllAbove x.0 rest
    → All {A = ℕ × Event} (λ y. AllBelow y.0 done) rest
    → All {A = ℕ × Event} (λ y. AllBelow y.0 (done ++ x ∷ [])) rest
all_below x done [] a h = tt
all_below x done (y ∷ rest) a h =
    (AllBelow-append y.0 x.0 x.1 done a.0 h.0, all_below x done rest a.1 h.1)

fold-plain_events :
    (done rest : Events)
    → All IsEntry rest
    → Ascending rest
    → All (λ x. AllBelow x.0 done) rest
    → fold_all (plain_events (map event_of rest)) done ≡ done ++ rest
unfolding plain_events fold_all
fold-plain_events done [] e a h = sym (append-nil done)
fold-plain_events done (x ∷ rest) e a h =
    fold_all-append (plain_event (event_of x)) (plain_events (map event_of rest)) done
    ∙ ap (fold_all (plain_events (map event_of rest))) (fold-plain_event x done e.0 h.0)
    ∙ fold-plain_events (done ++ x ∷ []) rest e.1 a.1 (all_below x done rest a.0 h.1)
    ∙ append_assoc done (x ∷ []) rest

AllBelow-none : (rest : Events) → All {A = ℕ × Event} (λ y. AllBelow y.0 []) rest
AllBelow-none [] = tt
AllBelow-none (y ∷ rest) = (tt, AllBelow-none rest)

-- Replaying a timeline whose steps ascend gives the timeline back.
pub fold-replay :
    (events : Events)
    → All IsEntry events
    → Ascending events
    → fold_all (plain_events (map event_of events)) [] ≡ events
fold-replay events e a = fold-plain_events [] events e a (AllBelow-none events)
