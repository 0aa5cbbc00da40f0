-- ===== src/Stream/State.antt =====
-- `StreamState` of app/api/_chat_stream.py. The dict `events` is the list of its items in the order
-- of insertion.
use me.Base.{
  ℕ, Bool, true, false, not, ◌&&◌, Option, none, some, List, [], ◌∷◌, ◌++◌, map, ◌==◌, leb, Text,
  if◌then◌else◌, is_empty,
}
use me.Cursor.{Json}
use me.Stream.{
  Status, Packet, text_delta, error, tool_start, tool_call, tool_end, ToolEvent, Event, text_event,
  tool_event,
}

abbrev pub Events : Type 0
Events = List (ℕ × Event)

pub record StreamState : Type 0 where
  pub events : Events
  pub saw_error : Bool

abbrev pub new_state : StreamState
new_state = record { events = []; saw_error = false }

-- `self.events.get(step)` and `self.events[step] = event`
unfoldable pub get_event : ℕ → Events → Option Event
get_event s [] = none
get_event s ((k, e) ∷ events) = if k == s then some e else get_event s events

unfoldable pub set_event : ℕ → Event → Events → Events
set_event s e [] = (s, e) ∷ []
set_event s e ((k, e') ∷ events) =
    if k == s then (k, e) ∷ events else (k, e') ∷ set_event s e events

abbrev pub new_tool_event : ℕ → (tool_call_id tool : Text) → ToolEvent
new_tool_event s id tool = record {
  step = s;
  tool_call_id = id;
  tool = tool;
  arguments = none;
  status = none;
  result = none;
  error = none;
}

-- The record that `_tool_record` returns.
unfoldable pub tool_record : ℕ → (tool_call_id tool : Text) → Option Event → ToolEvent
tool_record s id tool (some (tool_event r)) = r
tool_record s id tool (some (text_event k c)) = new_tool_event s id tool
tool_record s id tool none = new_tool_event s id tool

-- The text event after a delta.
unfoldable pub text_record : ℕ → Text → Option Event → Event
text_record s delta (some (text_event k content)) = text_event k (content ++ delta)
text_record s delta (some (tool_event r)) = text_event s delta
text_record s delta none = text_event s delta

-- What each tool packet writes to its record.
abbrev pub with_arguments : Json → ToolEvent → ToolEvent
with_arguments arguments r = record r { arguments = some arguments }

abbrev pub with_outcome : Status → Option Json → Option Text → ToolEvent → ToolEvent
with_outcome status result err r = record r { status = some status; result = result; error = err }

unfoldable pub set_tool : ℕ → (tool_call_id tool : Text) → (ToolEvent → ToolEvent) → Events → Events
unfolding tool_record
set_tool s id tool change events =
    set_event s (tool_event (change (tool_record s id tool (get_event s events)))) events

unfoldable pub fold_events : Packet → Events → Events
unfolding set_tool text_record
fold_events (text_delta (some s) delta) events =
    set_event s (text_record s delta (get_event s events)) events
fold_events (tool_start (some s) id tool) events = set_tool s id tool (λ r. r) events
fold_events (tool_call (some s) id tool arguments) events =
    set_tool s id tool (with_arguments arguments) events
fold_events (tool_end (some s) id tool status result err) events =
    set_tool s id tool (with_outcome status result err) events
fold_events p events = events

abbrev pub is_error : Packet → Bool
is_error (error code message) = true
is_error p = false

unfoldable pub fold : Packet → StreamState → StreamState
unfolding fold_events
fold p st = record {
  events = fold_events p st.events;
  saw_error = if is_error p then true else st.saw_error;
}

-- `sorted(self.events)`
unfoldable pub insert_step : ℕ × Event → Events → Events
insert_step x [] = x ∷ []
insert_step x (y ∷ events) = if leb x.0 y.0 then x ∷ y ∷ events else y ∷ insert_step x events

unfoldable pub sort_steps : Events → Events
unfolding insert_step
sort_steps [] = []
sort_steps (x ∷ events) = insert_step x (sort_steps events)

abbrev pub event_of : ℕ × Event → Event
event_of x = x.1

-- The column `messages.events`.
unfoldable pub events_list : Events → Option (List Event)
unfolding sort_steps
events_list [] = none
events_list (x ∷ events) = some (map event_of (sort_steps (x ∷ events)))

abbrev pub event_text : Event → Text
event_text (text_event s content) = content
event_text (tool_event r) = []

unfoldable pub join : List Event → Text
join [] = []
join (e ∷ events) = event_text e ++ join events

unfoldable pub assistant_content : Events → Text
unfolding sort_steps join
assistant_content events = join (map event_of (sort_steps events))

unfoldable pub should_persist : StreamState → Bool
should_persist st = not st.saw_error && not (is_empty st.events)
