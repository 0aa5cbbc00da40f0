-- ===== src/Stream/Turn.antt =====
-- `stream_turn` and `replay_stream` of app/api/_chat_stream.py, over the packets of the agent.
use me.Base.{
  ℕ, Bool, Option, none, some, List, [], ◌∷◌, ◌++◌, Text, codes, if◌then◌else◌, ◌≡◌, arith,
}
use me.Cursor.{Json}
use me.Stream.{
  Status, Packet, start, text_delta, finish, tool_start, tool_call, tool_end, ToolEvent, Event,
  text_event, tool_event,
}
use me.Stream.Steps.{StepAssigner, new_assigner, step_for, with_step}
use me.Stream.State.{StreamState, new_state, fold, events_list, assistant_content, should_persist}

-- The loop over the packets of the agent: what goes on the wire, and the state at the end.
unfoldable pub run_packets : List Packet → StepAssigner → StreamState → List Packet × StreamState
unfolding step_for with_step fold
run_packets [] a st = ([], st)
run_packets (p ∷ packets) a st =
    let (step, a') = step_for p a in
    let p' = with_step step p in
    let (wire, st') = run_packets packets a' (fold p' st) in (p' ∷ wire, st')

-- The arguments of `record_assistant_message` that the stream decides.
pub record AssistantRow : Type 0 where
  pub id : ℕ
  pub parent_message_id : ℕ
  pub content : Text
  pub events : Option (List Event)

-- The end of `stream_turn`: `stored` tells whether the insert goes through, without an
-- `IntegrityError`.
unfoldable pub end_turn :
    (assistant_message_id client_message_id : ℕ) (stored : Bool)
    → StreamState
    → List Packet × Option AssistantRow
end_turn assistant_message_id client_message_id stored st =
    if should_persist st
    then (if stored
        then (
          finish assistant_message_id ∷ [],
          some (record {
            id = assistant_message_id;
            parent_message_id = client_message_id;
            content = assistant_content st.events;
            events = events_list st.events;
          }),
        )
        else ([], none))
    else ([], none)

-- The whole stream, and the row that is stored.
unfoldable pub stream_turn :
    (assistant_message_id session_id client_message_id : ℕ) (stored : Bool)
    → List Packet
    → List Packet × Option AssistantRow
unfolding run_packets end_turn
stream_turn assistant_message_id session_id client_message_id stored packets =
    let (wire, st) = run_packets packets new_assigner new_state in
    let (last, row) = end_turn assistant_message_id client_message_id stored st in
    (start assistant_message_id session_id ∷ wire ++ last, row)

-- The state after the packets of the agent.
abbrev pub final_state : List Packet → StreamState
final_state packets = (run_packets packets new_assigner new_state).1

-- The row that a stream stores.
pub stream_turn-row :
    (m s c : ℕ) (stored : Bool) (packets : List Packet) (row : AssistantRow)
    → (stream_turn m s c stored packets).1 ≡ some row
    → row ≡ record {
      id = m;
      parent_message_id = c;
      content = assistant_content (final_state packets).events;
      events = events_list (final_state packets).events;
    }
unfolding stream_turn end_turn
stream_turn-row m s c stored packets row h = ground arith

-- What the replay uses of the class of a tool: pydantic's validation of stored arguments by
-- `ARGS_MODEL.model_validate`, and of a stored result by the packet, each with the dump of what it
-- makes. `none` is a `ValidationError`.
pub record ToolClass : Type 0 where
  pub validate_arguments : Json → Option Json
  pub validate_result : Json → Option Json

-- What a replay has sent, and the class of the exception that ended it, if one did.
pub record Replayed : Type 0 where
  pub packets : List Packet
  pub failure : Option Text

abbrev pub sent : List Packet → Replayed
sent packets = record { packets = packets; failure = none }

abbrev pub replay_failed : Text → Replayed
replay_failed e = record { packets = []; failure = some e }

-- What is sent next, unless an exception has ended the replay.
abbrev pub and_then : Replayed → Replayed → Replayed
and_then p q = elim p.failure [
  | some e ↦ p
  | none ↦ record { packets = p.packets ++ q.packets; failure = q.failure }
]

validated : (Json → Packet) → Option Json → Replayed
validated packet none = replay_failed (codes "ValidationError")
validated packet (some dump) = sent (packet dump ∷ [])

unfoldable pub replay_call : ToolClass → ToolEvent → Option Json → Replayed
unfolding validated
replay_call cls r none = sent []
replay_call cls r (some arguments) =
    validated (λ dump. tool_call (some r.step) r.tool_call_id r.tool dump)
      (cls.validate_arguments arguments)

replay_result : ToolClass → ToolEvent → Status → Option Json → Replayed
unfolding validated
replay_result cls r status none =
    sent (tool_end (some r.step) r.tool_call_id r.tool status none r.error ∷ [])
replay_result cls r status (some result) =
    validated (λ dump. tool_end (some r.step) r.tool_call_id r.tool status (some dump) r.error)
      (cls.validate_result result)

unfoldable pub replay_end : ToolClass → ToolEvent → Option Status → Replayed
unfolding replay_result
replay_end cls r none = sent []
replay_end cls r (some status) = replay_result cls r status r.result

-- `TOOL_CLASS_BY_NAME[event.tool]`, and the packets of the event.
unfoldable pub replay_tool : Option ToolClass → ToolEvent → Replayed
unfolding replay_call replay_end
replay_tool none r = replay_failed (codes "KeyError")
replay_tool (some cls) r =
    and_then (sent (tool_start (some r.step) r.tool_call_id r.tool ∷ []))
      (and_then (replay_call cls r r.arguments) (replay_end cls r r.status))

unfoldable pub replay_event : (Text → Option ToolClass) → Event → Replayed
unfolding replay_tool
replay_event tool_class_by_name (text_event s content) = sent (text_delta (some s) content ∷ [])
replay_event tool_class_by_name (tool_event r) = replay_tool (tool_class_by_name r.tool) r

unfoldable pub replay_events : (Text → Option ToolClass) → List Event → Replayed
unfolding replay_event
replay_events tool_class_by_name [] = sent []
replay_events tool_class_by_name (e ∷ events) =
    and_then (replay_event tool_class_by_name e) (replay_events tool_class_by_name events)

-- `cached.events or []`. What `model_dump` made of the events is validated to the same events.
abbrev pub events_or_empty : Option (List Event) → List Event
events_or_empty none = []
events_or_empty (some events) = events

unfoldable pub replay_stream :
    (tool_class_by_name : Text → Option ToolClass) (session_id : ℕ) → AssistantRow → Replayed
unfolding replay_events
replay_stream tool_class_by_name session_id row = and_then (sent (start row.id session_id ∷ [])) (
    and_then (replay_events tool_class_by_name (events_or_empty row.events))
      (sent (finish row.id ∷ [])))
