-- ===== src/Stream/Refused.antt =====
-- When `replay_stream` of app/api/_chat_stream.py raises, and how its stream then ends.
use me.Base.{
  ℕ, ◌≡◌, refl, ◌∙◌, Bool, true, false, not, ◌&&◌, ◌||◌, Option, none, some, List, [], ◌∷◌, any,
  is_some, arith, Text, Option-cases, inl, inr,
}
use me.Cursor.{Json}
use me.Stream.{Status, Packet, start, finish, tool_start, ToolEvent, Event, text_event, tool_event}
use me.Stream.Turn.{
  AssistantRow, ToolClass, Replayed, sent, and_then, replay_call, replay_end, replay_tool,
  replay_event, replay_events, replay_stream, events_or_empty,
}
use me.Stream.Outcome.{is_finish, any-append}

-- Whether a payload is there, and is refused by its model.
abbrev refused_by : (Json → Option Json) → Option Json → Bool
refused_by validate none = false
refused_by validate (some payload) = not (is_some (validate payload))

abbrev refused_tool : Option ToolClass → ToolEvent → Bool
refused_tool none r = true
refused_tool (some cls) r =
    refused_by cls.validate_arguments r.arguments
    || (is_some r.status && refused_by cls.validate_result r.result)

-- An event that no replay gets past: of a tool that is not registered, or whose class refuses the
-- stored arguments or, if the call has ended, the stored result.
abbrev pub is_refused : (Text → Option ToolClass) → Event → Bool
is_refused tool_class_by_name (text_event s content) = false
is_refused tool_class_by_name (tool_event r) = refused_tool (tool_class_by_name r.tool) r

-- How a part of the replay ends: whether it raises, and whether it has sent a finish packet.
record Ends (p : Replayed) (raises finishes : Bool) : Type 0 where
  raised : is_some p.failure ≡ raises
  finished : any is_finish p.packets ≡ finishes

and_then-failed :
    (packets : List Packet) (failure : Option Text) (q : Replayed)
    → is_some (and_then (record { packets = packets; failure = failure }) q).failure
      ≡ (is_some failure || is_some q.failure)
and_then-failed packets none q = refl
and_then-failed packets (some e) q = refl

and_then-finished :
    (packets : List Packet) (failure : Option Text) (q : Replayed)
    → any is_finish (and_then (record { packets = packets; failure = failure }) q).packets
      ≡ (any is_finish packets || (not (is_some failure) && any is_finish q.packets))
and_then-finished packets none q = any-append is_finish packets q.packets
and_then-finished packets (some e) q = ground arith

and_then-Ends :
    (p q : Replayed) (a b c d : Bool)
    → Ends p a b
    → Ends q c d
    → Ends (and_then p q) (a || c) (b || (not a && d))
and_then-Ends p q a b c d h k = record {
  raised = and_then-failed p.packets p.failure q ∙ rw (h.raised, k.raised) refl;
  finished = and_then-finished p.packets p.failure q ∙ rw (h.finished, h.raised, k.finished) refl;
}

replay_call-Ends :
    (cls : ToolClass) (r : ToolEvent) (x : Option Json)
    → Ends (replay_call cls r x) (refused_by cls.validate_arguments x) false
unfolding replay_call any
replay_call-Ends cls r none = record { raised = refl; finished = refl }
replay_call-Ends cls r (some x) = elim (Option-cases (cls.validate_arguments x)) [
  | inl e ↦ rw e (record { raised = refl; finished = refl })
  | inr (dump, e) ↦ rw e (record { raised = refl; finished = refl })
]

replay_end-Ends :
    (cls : ToolClass) (r : ToolEvent) (status : Option Status) (x : Option Json)
    → r.result ≡ x
    → Ends (replay_end cls r status) (is_some status && refused_by cls.validate_result x) false
unfolding replay_end any
replay_end-Ends cls r none x h = record { raised = refl; finished = refl }
replay_end-Ends cls r (some status) none h = rw h (record { raised = refl; finished = refl })
replay_end-Ends cls r (some status) (some x) h = elim (Option-cases (cls.validate_result x)) [
  | inl e ↦ rw (h, e) (record { raised = refl; finished = refl })
  | inr (dump, e) ↦ rw (h, e) (record { raised = refl; finished = refl })
]

-- Two parts of an event, of which neither sends a finish packet.
both-Ends :
    (p q : Replayed) (a c : Bool)
    → Ends p a false
    → Ends q c false
    → Ends (and_then p q) (a || c) false
both-Ends p q a c h k =
    let e = and_then-Ends p q a false c false h k in
    record { raised = e.raised; finished = e.finished ∙ ground arith }

replay_tool-Ends :
    (o : Option ToolClass) (r : ToolEvent) → Ends (replay_tool o r) (refused_tool o r) false
unfolding replay_tool any
replay_tool-Ends none r = record { raised = refl; finished = refl }
replay_tool-Ends (some cls) r =
    both-Ends (sent (tool_start (some r.step) r.tool_call_id r.tool ∷ [])) _ false _
      (record { raised = refl; finished = refl })
      (both-Ends (replay_call cls r r.arguments) (replay_end cls r r.status) _ _
        (replay_call-Ends cls r r.arguments) (replay_end-Ends cls r r.status r.result refl))

module _ (tool_class_by_name : Text → Option ToolClass) where
  replay_event-Ends :
      (e : Event) → Ends (replay_event tool_class_by_name e) (is_refused tool_class_by_name e) false
  unfolding replay_event any
  replay_event-Ends (text_event s content) = record { raised = refl; finished = refl }
  replay_event-Ends (tool_event r) = replay_tool-Ends (tool_class_by_name r.tool) r

  replay_events-Ends :
      (events : List Event)
      → Ends
          (replay_events tool_class_by_name events)
          (any (is_refused tool_class_by_name) events)
          false
  unfolding replay_events any
  replay_events-Ends [] = record { raised = refl; finished = refl }
  replay_events-Ends (e ∷ events) =
      both-Ends (replay_event tool_class_by_name e) (replay_events tool_class_by_name events) _ _
        (replay_event-Ends e) (replay_events-Ends events)

  framed-Ends :
      (id session_id : ℕ) (p : Replayed) (a : Bool)
      → Ends p a false
      → Ends
          (and_then (sent (start id session_id ∷ [])) (and_then p (sent (finish id ∷ []))))
          a
          (not a)
  unfolding any
  framed-Ends id session_id p a h =
      let last =
        and_then-Ends p (sent (finish id ∷ [])) a false false true h
          (record { raised = refl; finished = refl }) in
      let all =
        and_then-Ends (sent (start id session_id ∷ [])) _ false false _ _
          (record { raised = refl; finished = refl }) last in
      record { raised = all.raised ∙ ground arith; finished = all.finished ∙ ground arith }

  -- A replay raises exactly when a stored event names a tool that is not registered, or has arguments
  -- or, after its end, a result that the class of its tool refuses. It sends a finish packet exactly
  -- when it does not raise.
  pub replay_stream-refused :
      (session_id : ℕ) (row : AssistantRow)
      → (is_some (replay_stream tool_class_by_name session_id row).failure
          ≡ any (is_refused tool_class_by_name) (events_or_empty row.events))
        × (any is_finish (replay_stream tool_class_by_name session_id row).packets
            ≡ not (any (is_refused tool_class_by_name) (events_or_empty row.events)))
  unfolding replay_stream
  replay_stream-refused session_id row =
      let e =
        framed-Ends row.id session_id
          (replay_events tool_class_by_name (events_or_empty row.events)) _
          (replay_events-Ends (events_or_empty row.events)) in
      (e.raised, e.finished)
