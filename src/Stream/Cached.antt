-- ===== src/Stream/Cached.antt =====
-- `replay_stream` of app/api/_chat_stream.py gives back what was streamed.
use me.Base.{ℕ, ◌≡◌, refl, ap, ◌∙◌, Bool, Option, none, some, List, [], ◌∷◌, ◌++◌, map, All, Text}
use me.Cursor.{Json}
use me.Stream.{Status, Packet, start, finish, ToolEvent, Event, text_event, tool_event}
use me.Stream.Steps.{new_assigner}
use me.Stream.State.{Events, fold_events, new_state, event_of, events_list}
use me.Stream.Content.{Ascending, sort_steps_sorted}
use me.Stream.Turn.{
  AssistantRow, final_state, stream_turn, stream_turn-row, ToolClass, sent, replay_call, replay_end,
  replay_tool, replay_event, replay_events, replay_stream, events_or_empty,
}
use me.Stream.Replay.{
  fold_all, fold_all-append, fold-replay, plain_call, plain_end, plain_event, plain_events,
}
use me.Stream.Faithful.{new-Good, final-Good}
use me.Stream.Replayable.{
  ArgumentsAccepted, ResultAccepted, PacketAccepted, EventReplayable, AllReplayable, run-Replayable,
}

replay_call-accepted :
    (cls : ToolClass) (r : ToolEvent) (x : Option Json)
    → ArgumentsAccepted (some cls) x
    → replay_call cls r x ≡ sent (plain_call r x)
unfolding replay_call plain_call
replay_call-accepted cls r none h = refl
replay_call-accepted cls r (some arguments) h = rw h refl

replay_end-accepted :
    (cls : ToolClass) (r : ToolEvent) (status : Option Status) (x : Option Json)
    → r.result ≡ x
    → ResultAccepted (some cls) x
    → replay_end cls r status ≡ sent (plain_end r status)
unfolding replay_end plain_end
replay_end-accepted cls r none x e h = refl
replay_end-accepted cls r (some status) none e h = rw e refl
replay_end-accepted cls r (some status) (some result) e h = rw e (rw h refl)

replay_tool-accepted :
    (o : Option ToolClass) (r : ToolEvent)
    → ArgumentsAccepted o r.arguments
    → ResultAccepted o r.result
    → replay_tool o r ≡ sent (plain_event (tool_event r))
unfolding replay_tool plain_event
replay_tool-accepted none r h k = elim h [ ]
replay_tool-accepted (some cls) r h k =
    rw
      (replay_call-accepted cls r r.arguments h, replay_end-accepted cls r r.status r.result refl k)
      refl

module _ (tool_class_by_name : Text → Option ToolClass) (tool_of : Text → Text) where
  replay_event-accepted :
      (e : Event)
      → EventReplayable tool_class_by_name tool_of e
      → replay_event tool_class_by_name e ≡ sent (plain_event e)
  unfolding replay_event plain_event
  replay_event-accepted (text_event s content) h = refl
  replay_event-accepted (tool_event r) h =
      replay_tool-accepted (tool_class_by_name r.tool) r h.accepted h.returned

  replay_events-accepted :
      (events : Events)
      → AllReplayable tool_class_by_name tool_of events
      → replay_events tool_class_by_name (map event_of events)
        ≡ sent (plain_events (map event_of events))
  unfolding replay_events plain_events
  replay_events-accepted [] h = refl
  replay_events-accepted (x ∷ events) h =
      rw (replay_event-accepted x.1 h.0, replay_events-accepted events h.1) refl

  stored_events :
      (events : Events)
      → Ascending events
      → events_or_empty (events_list events) ≡ map event_of events
  unfolding events_list
  stored_events [] a = refl
  stored_events (x ∷ events) a =
      ap (λ (l : Events). map event_of l) (sort_steps_sorted (x ∷ events) a)

  row_events :
      (m s c : ℕ) (stored : Bool) (packets : List Packet) (row : AssistantRow)
      → (stream_turn m s c stored packets).1 ≡ some row
      → events_or_empty row.events ≡ map event_of (final_state packets).events
  row_events m s c stored packets row h =
      ap (λ (r : AssistantRow). events_or_empty r.events)
        (stream_turn-row m s c stored packets row h)
      ∙ stored_events (final_state packets).events (final-Good packets).1.ascending

  fold-framed :
      (id s : ℕ) (packets : List Packet) (events : Events)
      → fold_all (start id s ∷ packets ++ finish id ∷ []) events ≡ fold_all packets events
  unfolding fold_all fold_events
  fold-framed id s packets events = fold_all-append packets (finish id ∷ []) events

  -- Let the tool packets of the agent name registered tools, whose classes validate each payload to what
  -- it was dumped from, and no two tools share a `tool_call_id`. If `stream_turn` then stores a row,
  -- `replay_stream` of that row raises nothing, and its packets fold to the timeline that the packets
  -- of the agent were folded into while they were streamed.
  pub replay_stream-folds :
      (m s c session_id : ℕ) (stored : Bool) (packets : List Packet) (row : AssistantRow)
      → All (PacketAccepted tool_class_by_name tool_of) packets
      → (stream_turn m s c stored packets).1 ≡ some row
      → ((replay_stream tool_class_by_name session_id row).failure ≡ none)
        × (fold_all (replay_stream tool_class_by_name session_id row).packets []
            ≡ (final_state packets).events)
  unfolding replay_stream
  replay_stream-folds m s c session_id stored packets row p h =
      let (a, g) = final-Good packets in
      let events = (final_state packets).events in
      let there = row_events m s c stored packets row h in
      let fine = replay_events-accepted events (
        run-Replayable tool_class_by_name tool_of packets new_assigner new_state [] new-Good p
          tt) in
      rw (there, fine)
        (
          refl,
          fold-framed row.id session_id (plain_events (map event_of events)) []
              ∙ fold-replay events g.entries g.ascending,
        )
