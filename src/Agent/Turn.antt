-- ===== src/Agent/Turn.antt =====
-- One model turn: `_fold_tool_call_deltas`, `_stream_one_turn` and `_assistant_message` of
-- app/agents/runtime.py.
use me.Base.{
  ℕ, Option, none, some, List, [], ◌∷◌, ◌++◌, map, ◌==◌, if◌then◌else◌, Text, is_empty, ◌≡◌,
}
use me.Stream.{Packet, text_delta}
use me.Agent.{
  FunctionDelta, ToolDelta, Choice, ModelStream, PartialToolCall, TurnResult, ChatMessage,
  assistant,
}

abbrev pub empty_call : PartialToolCall
empty_call = record { id = []; name = []; args = [] }

-- `dict[int, _PartialToolCall]`, in the order of insertion.
abbrev pub CallsByIdx : Type 0
CallsByIdx = List (ℕ × PartialToolCall)

-- `if value: current = value`
unfoldable pub overwrite : Option Text → Text → Text
overwrite none current = current
overwrite (some v) current = if is_empty v then current else v

-- `if fn.arguments: entry.args += fn.arguments`; an empty fragment adds nothing.
unfoldable pub fragment : Option Text → Text
fragment none = []
fragment (some v) = v

unfoldable pub fold_function : Option FunctionDelta → PartialToolCall → PartialToolCall
unfolding overwrite fragment
fold_function none entry = entry
fold_function (some fn) entry = record entry {
  name = overwrite fn.name entry.name;
  args = entry.args ++ fragment fn.arguments;
}

-- The body of the loop over the fragments of a chunk, on its entry.
unfoldable pub fold_delta : ToolDelta → PartialToolCall → PartialToolCall
unfolding fold_function
fold_delta tc entry = fold_function tc.function (record entry { id = overwrite tc.id entry.id })

-- `entry = by_idx.setdefault(tc.index, _PartialToolCall())`, and the changes to it.
unfoldable pub update_entry : ToolDelta → CallsByIdx → CallsByIdx
unfolding fold_delta
update_entry tc [] = (tc.index, fold_delta tc empty_call) ∷ []
update_entry tc ((i, entry) ∷ calls) =
    if i == tc.index then (i, fold_delta tc entry) ∷ calls else (i, entry) ∷ update_entry tc calls

unfoldable pub fold_tool_call_deltas : List ToolDelta → CallsByIdx → CallsByIdx
unfolding update_entry
fold_tool_call_deltas [] by_idx = by_idx
fold_tool_call_deltas (tc ∷ deltas) by_idx = fold_tool_call_deltas deltas (update_entry tc by_idx)

-- The local variables of `_stream_one_turn`; `text` is the concatenation of `text_parts`.
pub record TurnState : Type 0 where
  pub text : Text
  pub tool_calls_by_idx : CallsByIdx
  pub finish_reason : Option Text

abbrev pub new_turn : TurnState
new_turn = record { text = []; tool_calls_by_idx = []; finish_reason = none }

-- What `if delta.content:` yields.
unfoldable pub content_packets : Option Text → List Packet
content_packets none = []
content_packets (some content) = if is_empty content then [] else text_delta none content ∷ []

-- `if choice.finish_reason: finish_reason = choice.finish_reason`
unfoldable pub new_reason : Option Text → Option Text → Option Text
new_reason none current = current
new_reason (some reason) current = if is_empty reason then current else some reason

unfoldable pub fold_choice : Choice → TurnState → TurnState
unfolding new_reason
fold_choice choice s = record {
  text = s.text ++ fragment choice.content;
  tool_calls_by_idx = fold_tool_call_deltas choice.tool_calls s.tool_calls_by_idx;
  finish_reason = new_reason choice.finish_reason s.finish_reason;
}

-- The loop over the chunks. A chunk without choices is skipped, of another the first choice counts.
unfoldable pub stream_chunks : List (List Choice) → TurnState → List Packet × TurnState
unfolding content_packets fold_choice
stream_chunks [] s = ([], s)
stream_chunks ([] ∷ chunks) s = stream_chunks chunks s
stream_chunks ((choice ∷ others) ∷ chunks) s =
    let (packets, s') = stream_chunks chunks (fold_choice choice s) in
    (content_packets choice.content ++ packets, s')

abbrev pub value_of : ℕ × PartialToolCall → PartialToolCall
value_of x = x.1

abbrev pub turn_result : TurnState → TurnResult
turn_result s = record {
  text = s.text;
  tool_calls = map value_of s.tool_calls_by_idx;
  finish_reason = s.finish_reason;
}

-- How a turn ends.
pub data TurnEnd : Type 0 where
  finished : TurnResult → TurnEnd
  failed : (class_name : Text) → TurnEnd

unfoldable pub turn_end : Option Text → TurnState → TurnEnd
turn_end none s = finished (turn_result s)
turn_end (some e) s = failed e

unfoldable pub stream_one_turn : ModelStream → List Packet × TurnEnd
unfolding stream_chunks turn_end
stream_one_turn stream =
    let (packets, s) = stream_chunks stream.chunks new_turn in (packets, turn_end stream.failure s)

unfoldable pub assistant_message : TurnResult → ChatMessage
assistant_message turn =
    assistant (if is_empty turn.text then none else some turn.text) turn.tool_calls

pub turn_end-finished :
    (failure : Option Text) (s : TurnState) (turn : TurnResult)
    → turn_end failure s ≡ finished turn
    → turn_result s ≡ turn
unfolding turn_end
turn_end-finished none s turn h = cc
turn_end-finished (some e) s turn h = absurd (cc)
