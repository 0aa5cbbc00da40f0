-- ===== src/Tests/Agents.antt =====
-- The theorems on the agent at concrete inputs: a model that asks for one tool call, then answers.
use me.Base.{
  ℕ, suc, ◌≡◌, refl, Option, none, some, List, [], ◌∷◌, Text, codes, text_eq, ◌⊎◌, inl, inr, All,
  length, ◌≤◌, ltb, if◌then◌else◌, is_some,
}
use me.Cursor.{str}
use me.Agent.{ToolDelta, ModelStream, TurnResult, ChatMessage, valid, returned, Tool, Runtime}
use me.Agent.Prompt.{render_system_prompt, is_raised}
use me.Agent.Turn.{finished, stream_one_turn, fragment, fold_tool_call_deltas}
use me.Agent.Loop.{run_agent_stream, max_tool_turns}
use me.Agent.Timeline.{IsTimeline, run_agent_stream-IsTimeline}
use me.Agent.Failure.{run_agent_stream-failure}
use me.Agent.Answers.{IsAnswered}
use me.Agent.Requests.{run_agent_stream-requests}
use me.Agent.Folding.{all_deltas}
use me.Agent.Merged.{merged_calls, stream_one_turn-finished}
use me.Stream.Invariant.{streamed_text}

-- A tool that counts its calls.
abbrev counter : Tool ℕ Text ℕ
counter = record {
  name = codes "count";
  model_validate_json = λ json. valid json;
  run = λ id args n. (returned n, suc n);
  dump_args = λ args. str args;
  dump_result = λ n. str (n ∷ []);
  result_json = λ n. n ∷ [];
}

-- One call, whose arguments come in two fragments.
abbrev fragment_of : Option Text → Text → ToolDelta
fragment_of id arguments = record {
  index = 0;
  id = id;
  function = some (record { name = some (codes "count"); arguments = some arguments });
}

abbrev asking : ModelStream
asking = record {
  chunks =
      (record {
        content = some (codes "Let me see");
        tool_calls = fragment_of (some (codes "c1")) (codes "{") ∷ [];
        finish_reason = none;
      }
        ∷ [])
      ∷ []
      ∷ (record {
        content = none;
        tool_calls = fragment_of none (codes "}") ∷ [];
        finish_reason = some (codes "tool_calls");
      }
          ∷ [])
      ∷ [];
  failure = none;
}

abbrev pub answering : ModelStream
answering = record {
  chunks =
      (record {
        content = some (codes "Done");
        tool_calls = [];
        finish_reason = some (codes "stop");
      }
        ∷ [])
      ∷ [];
  failure = none;
}

abbrev complete : List ChatMessage → ModelStream
complete messages = if ltb (length messages) 3 then asking else answering

abbrev pub runtime : Runtime ℕ Text ℕ
runtime = record {
  tools_by_name = λ name. if text_eq name (codes "count") then some counter else none;
  complete = complete;
  dumps_error = λ label. label;
}

-- Only one time zone is known.
abbrev pub localize : Text → Text → Text ⊎ Text
localize now_utc client_tz =
    if text_eq client_tz (codes "UTC") then inr now_utc else inl (codes "ZoneInfoNotFoundError")

abbrev pub prompt : Text ⊎ Text
prompt = render_system_prompt localize (codes "2025-01-01") (codes "UTC")

run_agent_stream-IsTimeline_example :
    IsTimeline (run_agent_stream runtime (codes "Hi") prompt [] 5).packets
run_agent_stream-IsTimeline_example = run_agent_stream-IsTimeline runtime (codes "Hi") prompt [] 5

run_agent_stream-requests_example :
    (length (run_agent_stream runtime (codes "Hi") prompt [] 5).state.requests ≤ max_tool_turns)
    × All IsAnswered (run_agent_stream runtime (codes "Hi") prompt [] 5).state.requests
run_agent_stream-requests_example = run_agent_stream-requests runtime (codes "Hi") prompt [] 5

run_agent_stream-failure_example :
    is_some
      (run_agent_stream runtime
        (codes "Hi")
        (render_system_prompt localize (codes "2025-01-01") (codes "Mars"))
        []
        5).failure
    ≡ is_raised (localize (codes "2025-01-01") (codes "Mars"))
run_agent_stream-failure_example =
    run_agent_stream-failure runtime localize (codes "Hi") (codes "2025-01-01") (codes "Mars") [] 5

abbrev asked : TurnResult
asked = record {
  text = codes "Let me see";
  tool_calls = record { id = codes "c1"; name = codes "count"; args = codes "{}" } ∷ [];
  finish_reason = some (codes "tool_calls");
}

asking_ends : (stream_one_turn asking).1 ≡ finished asked
unfolding stream_one_turn fragment fold_tool_call_deltas
asking_ends = refl

stream_one_turn-finished_example :
    (asked.text ≡ streamed_text (stream_one_turn asking).0)
    × (asked.tool_calls ≡ merged_calls (all_deltas asking.chunks))
stream_one_turn-finished_example = stream_one_turn-finished asking asked asking_ends
