-- ===== src/Stream/Invariant.antt =====
-- The state of `stream_turn` of app/api/_chat_stream.py between two packets.
use mathlib.Core.List.{append_assoc, append-nil}
use me.Base.{
  ℕ, ◌≡◌, refl, sym, ap, ◌∙◌, Option, some, List, [], ◌∷◌, ◌++◌, map, arith, ◌==◌, inl, inr,
  Bool-cases, All, Text, if◌then◌else◌,
}
use me.Cursor.{Json}
use me.Stream.{Status, Packet, text_delta, ToolEvent, Event, text_event, tool_event}
use me.Stream.Steps.{Kind, text, StepAssigner, lookup_step}
use me.Stream.State.{
  Events, get_event, set_event, event_of, with_arguments, with_outcome, join, event_text,
}
use me.Stream.Content.{AllBelow, Ascending}
use me.Stream.Replay.{IsEntry}

-- The text of the text packets.
unfoldable pub streamed_text : List Packet → Text
streamed_text [] = []
streamed_text (text_delta step delta ∷ packets) = delta ++ streamed_text packets
streamed_text (p ∷ packets) = streamed_text packets

-- While the last packet is text, its event is the last one.
abbrev pub IsOpen : Option Kind → Option ℕ → Events → Type 0
IsOpen (some text) t events =
    (s : ℕ) × (init : Events) × (c : Text) × (t ≡ some s)
    × (events ≡ init ++ (s, text_event s c) ∷ [])
IsOpen k t events = Unit

-- The step of a tool call holds its record, under its id.
abbrev pub Known : List (Text × ℕ) → Events → Type 0
Known steps events =
    (id : Text) (s : ℕ)
    → lookup_step id steps ≡ some s
    → (r : ToolEvent) × (get_event s events ≡ some (tool_event r)) × (r.tool_call_id ≡ id)

-- `said` is the text so far.
pub record Good (a : StepAssigner) (events : Events) (said : Text) : Type 0 where
  pub below : AllBelow a.next events
  pub ascending : Ascending events
  pub entries : All IsEntry events
  pub known : Known a.tool_steps events
  pub opened : IsOpen a.last_kind a.text_step events
  pub content : join (map event_of events) ≡ said

pub get_event-set_event :
    (s k : ℕ) (e : Event) (events : Events)
    → get_event s (set_event k e events) ≡ (if k == s then some e else get_event s events)
unfolding get_event set_event
get_event-set_event s k e [] = refl
get_event-set_event s k e ((j, x) ∷ events) = ground (arith, get_event-set_event s k e events)

pub entries-append :
    (events : Events) (x : ℕ × Event)
    → All IsEntry events
    → IsEntry x
    → All IsEntry (events ++ x ∷ [])
entries-append [] x h e = (e, tt)
entries-append (y ∷ events) x h e = (h.0, entries-append events x h.1 e)

pub join-append :
    (events : Events) (s : ℕ) (e : Event)
    → join (map event_of (events ++ (s, e) ∷ [])) ≡ join (map event_of events) ++ event_text e
unfolding join
join-append [] s e = append-nil (event_text e)
join-append (y ∷ events) s e =
    ap (λ t. event_text (event_of y) ++ t) (join-append events s e)
    ∙ sym (append_assoc (event_text (event_of y)) (join (map event_of events)) (event_text e))

-- What a change of a tool's record keeps.
pub record IsChange (change : ToolEvent → ToolEvent) : Type 0 where
  pub same_step : (r : ToolEvent) → (change r).step ≡ r.step
  pub same_call : (r : ToolEvent) → (change r).tool_call_id ≡ r.tool_call_id
  pub entry :
      (k : ℕ) (r : ToolEvent) → IsEntry (k, tool_event r) → IsEntry (k, tool_event (change r))

pub same-IsChange : IsChange (λ r. r)
same-IsChange = record { same_step = λ r. refl; same_call = λ r. refl; entry = λ k r h. h }

pub arguments-IsChange : (arguments : Json) → IsChange (with_arguments arguments)
arguments-IsChange arguments = record {
  same_step = λ r. refl;
  same_call = λ r. refl;
  entry = λ k r h. h;
}

pub outcome-IsChange :
    (status : Status) (result : Option Json) (err : Option Text)
    → IsChange (with_outcome status result err)
outcome-IsChange status result err = record {
  same_step = λ r. refl;
  same_call = λ r. refl;
  entry = λ k r h. (h.0, λ e. absurd (ground arith));
}

-- A record that is changed in place.
pub entries-set_tool :
    (s : ℕ) (change : ToolEvent → ToolEvent) (r : ToolEvent) (events : Events)
    → IsChange change
    → get_event s events ≡ some (tool_event r)
    → All IsEntry events
    → All IsEntry (set_event s (tool_event (change r)) events)
unfolding get_event set_event
entries-set_tool s change r [] c h e = absurd (ground arith)
entries-set_tool s change r ((k, x) ∷ events) c h e = elim (Bool-cases (k == s)) [
  | inl at ↦ let same : x ≡ tool_event r = ground arith in rw at (c.entry k r (rw same at e.0), e.1)
  | inr past ↦ rw past (e.0, entries-set_tool s change r events c (ground arith) e.1)
]

pub join-set_tool :
    (s : ℕ) (r r' : ToolEvent) (events : Events)
    → get_event s events ≡ some (tool_event r)
    → join (map event_of (set_event s (tool_event r') events)) ≡ join (map event_of events)
unfolding get_event set_event join
join-set_tool s r r' [] h = absurd (ground arith)
join-set_tool s r r' ((k, x) ∷ events) h = elim (Bool-cases (k == s)) [
  | inl at ↦ let same : x ≡ tool_event r = ground arith in rw at (rw same refl)
  | inr past ↦ rw past (ap (λ t. event_text x ++ t) (join-set_tool s r r' events (ground arith)))
]
