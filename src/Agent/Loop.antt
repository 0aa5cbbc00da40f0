-- ===== src/Agent/Loop.antt =====
-- The tool calls and the loop: `_surface_tool_error`, `_run_one_tool`, `_build_messages` and
-- `run_agent_stream` of app/agents/runtime.py.
use me.Base.{
  ℕ, zero, suc, Bool, true, false, Option, none, some, List, [], ◌∷◌, ◌++◌, map, ◌&&◌, not,
  if◌then◌else◌, Text, codes, text_eq, is_empty, ◌⊎◌, inl, inr,
}
use me.Stream.{Packet, error, tool_start, tool_call, tool_end, succeeded, failed}
use me.Agent.{
  PartialToolCall, TurnResult, ChatMessage, plain, tool_result, Validated, valid, invalid,
  ToolOutcome, returned, recoverable, raised, Tool, Runtime,
}
use me.Agent.Turn.{TurnEnd, finished, stream_one_turn, assistant_message}
use me.Agent.Turn

pub record HistoryTurn : Type 0 where
  pub role : Text
  pub content : Text

abbrev pub history_message : HistoryTurn → ChatMessage
history_message turn = plain turn.role turn.content

unfoldable pub build_messages :
    (system_prompt user_input : Text) → List HistoryTurn → List ChatMessage
build_messages system_prompt user_input history =
    plain (codes "system") system_prompt ∷ map history_message history
    ++ plain (codes "user") user_input ∷ []

-- `_MAX_TOOL_TURNS`
abbrev pub max_tool_turns : ℕ
max_tool_turns = 10

-- The state that the loop changes: `messages`, and the store under the tools. `requests` lists what
-- the model was sent so far, in order.
pub record AgentState (Store : Type 0) : Type 0 where
  pub messages : List ChatMessage
  pub store : Store
  pub requests : List (List ChatMessage)

-- What a generator has done: the packets, the state, and the class of the exception that left it.
pub record Progress (Store : Type 0) : Type 0 where
  pub packets : List Packet
  pub state : AgentState Store
  pub failure : Option Text

abbrev pub append_message : {Store : Type 0} → ChatMessage → AgentState Store → AgentState Store
append_message m s = record s { messages = s.messages ++ m ∷ [] }

-- What comes after `yield from`, unless an exception has left it.
abbrev pub after :
    {Store : Type 0} → Progress Store → (AgentState Store → Progress Store) → Progress Store
after p next = elim p.failure [
  | some e ↦ p
  | none ↦ record (next p.state) { packets = p.packets ++ (next p.state).packets }
]

-- `except Exception as exc`: the last packet.
abbrev pub failure_packet : Option Text → List Packet
failure_packet none = []
failure_packet (some e) = error (codes "agent_failed") e ∷ []

abbrev pub guarded : {Store : Type 0} → Progress Store → Progress Store
guarded p = record p { packets = p.packets ++ failure_packet p.failure; failure = none }

-- Before the first request.
abbrev pub start_state :
    {Store : Type 0}
    → (system_prompt user_input : Text) → List HistoryTurn
    → Store
    → AgentState Store
start_state system_prompt user_input history store = record {
  messages = build_messages system_prompt user_input history;
  store = store;
  requests = [];
}

module _ {Store Args Res : Type 0} (rt : Runtime Store Args Res) where
  -- The packets of `_surface_tool_error` without the leading start, and its message.
  unfoldable pub surface_tool_error :
      Tool Store Args Res
      → (tool_call_id error_label : Text) → (start_emitted : Bool) → AgentState Store
      → Progress Store
  surface_tool_error tool id label start_emitted s = record {
    packets =
        (if start_emitted then [] else tool_start none id tool.name ∷ [])
        ++ tool_end none id tool.name failed none (some label) ∷ [];
    state = append_message (tool_result id (rt.dumps_error label)) s;
    failure = none;
  }

  -- What follows `tool.run`.
  unfoldable pub tool_ended :
      Tool Store Args Res
      → (tool_call_id : Text) → AgentState Store
      → ToolOutcome Res
      → Progress Store
  unfolding surface_tool_error
  tool_ended tool id s (returned result) = record {
    packets = tool_end none id tool.name succeeded (some (tool.dump_result result)) none ∷ [];
    state = append_message (tool_result id (tool.result_json result)) s;
    failure = none;
  }
  tool_ended tool id s (recoverable label) = surface_tool_error tool id label true s
  tool_ended tool id s (raised e) = record {
    packets = tool_end none id tool.name failed none (some e) ∷ [];
    state = s;
    failure = some e;
  }

  -- What follows the validation of the arguments.
  unfoldable pub run_validated :
      Tool Store Args Res
      → (tool_call_id : Text) → AgentState Store
      → Validated Args
      → Progress Store
  unfolding tool_ended
  run_validated tool id s (invalid label) = surface_tool_error tool id label false s
  run_validated tool id s (valid args) =
      let (outcome, store') = tool.run id args s.store in
      let rest = tool_ended tool id (record s { store = store' }) outcome in
      record rest {
        packets =
            tool_start none id tool.name
            ∷ tool_call none id tool.name (tool.dump_args args)
            ∷ rest.packets;
      }

  -- `tc.args or "{}"`
  abbrev pub args_or_empty : Text → Text
  args_or_empty args = if is_empty args then codes "{}" else args

  run_found : PartialToolCall → AgentState Store → Option (Tool Store Args Res) → Progress Store
  unfolding run_validated
  run_found tc s none = record { packets = []; state = s; failure = some (codes "KeyError") }
  run_found tc s (some tool) =
      run_validated tool tc.id s (tool.model_validate_json (args_or_empty tc.args))

  unfoldable pub run_one_tool : PartialToolCall → AgentState Store → Progress Store
  unfolding run_found
  run_one_tool tc s = run_found tc s (rt.tools_by_name tc.name)

  -- `for tc in turn.tool_calls: yield from _run_one_tool(…)`
  unfoldable pub run_tools : List PartialToolCall → AgentState Store → Progress Store
  unfolding run_one_tool
  run_tools [] s = record { packets = []; state = s; failure = none }
  run_tools (tc ∷ calls) s = after (run_one_tool tc s) (λ s'. run_tools calls s')

  -- `turn.finish_reason != "tool_calls" or not turn.tool_calls`
  is_tool_reason : Option Text → Bool
  is_tool_reason none = false
  is_tool_reason (some reason) = text_eq reason (codes "tool_calls")

  unfoldable pub wants_tools : TurnResult → Bool
  unfolding is_tool_reason
  wants_tools turn = is_tool_reason turn.finish_reason && not (is_empty turn.tool_calls)

  -- What follows the stream of one turn; `again` is the next round of the loop.
  unfoldable pub end_turn :
      (AgentState Store → Progress Store) → AgentState Store → TurnEnd → Progress Store
  unfolding assistant_message wants_tools run_tools
  end_turn again s (Turn.failed e) = record { packets = []; state = s; failure = some e }
  end_turn again s (finished turn) =
      let s' = append_message (assistant_message turn) s in
      elim (wants_tools turn) [
        | false ↦ record { packets = []; state = s'; failure = none }
        | true ↦ after (run_tools turn.tool_calls s') again
      ]

  -- The loop, with the rounds that are left.
  unfoldable pub loop : ℕ → AgentState Store → Progress Store
  unfolding end_turn stream_one_turn
  loop zero s = record {
    packets = error (codes "agent_max_turns") (codes "tool loop exceeded cap") ∷ [];
    state = s;
    failure = none;
  }
  loop (suc rounds) s =
      let (packets, turn) = stream_one_turn (rt.complete s.messages) in
      let rest =
        end_turn (λ s'. loop rounds s') (record s { requests = s.requests ++ s.messages ∷ [] })
          turn in
      record rest { packets = packets ++ rest.packets }

  -- The prompt is rendered before the `try`: on the left is an exception of `render_system_prompt`, which
  -- leaves the generator at its first `next`.
  unfoldable pub run_agent_stream :
      (user_input : Text) → Text ⊎ Text → List HistoryTurn → Store → Progress Store
  unfolding loop build_messages
  run_agent_stream user_input (inl e) history store = record {
    packets = [];
    state = record { messages = []; store = store; requests = [] };
    failure = some e;
  }
  run_agent_stream user_input (inr system_prompt) history store =
      guarded (loop max_tool_turns (start_state system_prompt user_input history store))
