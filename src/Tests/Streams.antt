-- ===== src/Tests/Streams.antt =====
-- The theorems on the chat stream at concrete inputs.
use me.Base.{
  Option, Text, text_eq, if◌then◌else◌, true, false, ◌≡◌, refl, none, some, List, [], ◌∷◌, not,
  ◌&&◌, ◌++◌, any, is_some, codes,
}
use me.Stream.Steps.{lookup_step}
use me.Stream.{
  Packet, start, text_delta, tool_start, tool_call, tool_end, succeeded, text_event, tool_event,
}
use me.Stream.State.{is_error, should_persist, set_event, assistant_content, events_list, get_event}
use me.Stream.Turn.{AssistantRow, ToolClass, stream_turn, replay_stream, final_state}
use me.Stream.Replay.{fold_all}
use me.Stream.Invariant.{streamed_text}
use me.Stream.Faithful.{stream_turn-content}
use me.Stream.Cached.{replay_stream-folds}
use me.Stream.Refused.{replay_stream-refused}
use me.Cursor.{Json, str, integer}
use me.Stream.Outcome.{is_content, is_finish, ending, stream_turn-stored, stream_turn-finish}

abbrev pub two_packets : List Packet
two_packets = text_delta none (codes "Hel") ∷ text_delta none (codes "lo") ∷ []

stream_turn-stored_example :
    is_some (stream_turn 1 2 3 true two_packets).1
    ≡ (not (any is_error two_packets) && any is_content two_packets && true)
stream_turn-stored_example = stream_turn-stored 1 2 3 true two_packets

no_finish : any is_finish two_packets ≡ false
unfolding any
no_finish = refl

stream_turn-finish_example :
    (wire : List Packet) × (any is_finish wire ≡ false)
    × ((stream_turn 1 2 3 true two_packets).0
        ≡ start 1 2 ∷ wire ++ ending 1 (is_some (stream_turn 1 2 3 true two_packets).1))
stream_turn-finish_example = stream_turn-finish 1 2 3 true two_packets no_finish

abbrev pub hello_row : AssistantRow
hello_row = record {
  id = 1;
  parent_message_id = 3;
  content = codes "Hello";
  events = some (text_event 1 (codes "Hello") ∷ []);
}

stores_hello : (stream_turn 1 2 3 true two_packets).1 ≡ some hello_row
unfolding stream_turn should_persist set_event assistant_content events_list get_event
stores_hello = refl

-- One tool, which takes any payload as it is.
abbrev note_class : ToolClass
note_class = record { validate_arguments = λ j. some j; validate_result = λ j. some j }

abbrev classes : Text → Option ToolClass
classes name = if text_eq name (codes "note") then some note_class else none

abbrev with_a_tool : List Packet
with_a_tool =
    text_delta none (codes "Hel")
    ∷ tool_start none (codes "c1") (codes "note")
    ∷ tool_call none (codes "c1") (codes "note") (str (codes "x"))
    ∷ tool_end none (codes "c1") (codes "note") succeeded (some (str (codes "y"))) none
    ∷ []

abbrev tool_row : AssistantRow
tool_row = record {
  id = 1;
  parent_message_id = 3;
  content = codes "Hel";
  events = some (
      text_event 1 (codes "Hel")
      ∷ tool_event (record {
        step = 2;
        tool_call_id = codes "c1";
        tool = codes "note";
        arguments = some (str (codes "x"));
        status = some succeeded;
        result = some (str (codes "y"));
        error = none;
      })
      ∷ []);
}

stores_tool : (stream_turn 1 2 3 true with_a_tool).1 ≡ some tool_row
unfolding stream_turn should_persist set_event assistant_content events_list get_event lookup_step
    text_eq
stores_tool = refl

replay_stream-folds_example :
    ((replay_stream classes 2 tool_row).failure ≡ none)
    × (fold_all (replay_stream classes 2 tool_row).packets [] ≡ (final_state with_a_tool).events)
unfolding text_eq
replay_stream-folds_example =
    replay_stream-folds classes (λ id. codes "note") 1 2 3 2 true with_a_tool tool_row
      (tt, ((refl, tt), ((refl, refl), ((refl, refl), tt)))) stores_tool

stream_turn-content_example : hello_row.content ≡ streamed_text two_packets
stream_turn-content_example = stream_turn-content 1 2 3 true two_packets hello_row stores_hello

-- Two calls of two tools under one empty id are stored as one event, of the tool of the first with the
-- arguments of the second.
abbrev shared_id : List Packet
shared_id =
    tool_call none [] (codes "note") (str (codes "x"))
    ∷ tool_call none [] (codes "count") (integer 1)
    ∷ []

abbrev mixed_row : AssistantRow
mixed_row = record {
  id = 1;
  parent_message_id = 3;
  content = [];
  events = some (
      tool_event (record {
        step = 1;
        tool_call_id = [];
        tool = codes "note";
        arguments = some (integer 1);
        status = none;
        result = none;
        error = none;
      })
      ∷ []);
}

stores_mixed : (stream_turn 1 2 3 true shared_id).1 ≡ some mixed_row
unfolding stream_turn should_persist set_event assistant_content events_list get_event lookup_step
    text_eq
stores_mixed = refl

abbrev only_text : Json → Option Json
only_text (str t) = some (str t)
only_text j = none

-- Two tools, of which the one takes a text, and the other anything.
abbrev two_classes : Text → Option ToolClass
two_classes name =
    if text_eq name (codes "note")
    then some (record { validate_arguments = only_text; validate_result = λ j. some j })
    else some note_class

replay_stream-refused_example :
    (is_some (replay_stream two_classes 2 mixed_row).failure ≡ true)
    × (any is_finish (replay_stream two_classes 2 mixed_row).packets ≡ false)
unfolding any text_eq
replay_stream-refused_example = replay_stream-refused two_classes 2 mixed_row
