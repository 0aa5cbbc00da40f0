-- ===== src/Agent/Store.antt =====
-- What every tool keeps, a run of the agent keeps.
use me.Base.{ℕ, zero, suc, ◌≡◌, some, List, [], ◌∷◌, inl, inr, Bool-cases, Option-cases, Text, ◌⊎◌}
use me.Agent.{
  PartialToolCall, Validated, valid, invalid, ToolOutcome, returned, recoverable, raised, Tool,
  Runtime,
}
use me.Agent.Turn
use me.Agent.Turn.{TurnEnd, finished, stream_one_turn, assistant_message}
use me.Agent.Loop.{
  AgentState, Progress, after, tool_ended, run_validated, args_or_empty, run_one_tool, run_tools,
  wants_tools, end_turn, loop, run_agent_stream, HistoryTurn, max_tool_turns, append_message,
  start_state,
}

module _ {Store Args Res : Type 0} (rt : Runtime Store Args Res) (P : Store → Type 0) where
  -- Every registered tool keeps the property of the store.
  abbrev pub ToolsKeep : Type 0
  ToolsKeep =
      (name : Text) (tool : Tool Store Args Res)
      → rt.tools_by_name name ≡ some tool
      → (id : Text) (args : Args) (store : Store) → P store
      → P (tool.run id args store).1

  after-keeps :
      (p : Progress Store) (next : AgentState Store → Progress Store)
      → P p.state.store
      → ((s : AgentState Store) → P s.store → P (next s).state.store)
      → P (after p next).state.store
  after-keeps p next h k = elim (Option-cases p.failure) [
    | inl e ↦ rw e (k p.state h)
    | inr (x, e) ↦ rw e h
  ]

  tool_ended-keeps :
      (tool : Tool Store Args Res) (id : Text) (s : AgentState Store) (o : ToolOutcome Res)
      → P s.store
      → P (tool_ended rt tool id s o).state.store
  unfolding tool_ended
  tool_ended-keeps tool id s (returned result) h = h
  tool_ended-keeps tool id s (recoverable label) h = h
  tool_ended-keeps tool id s (raised e) h = h

  module _ (keep : ToolsKeep) where
    run_validated-keeps :
        (name : Text) (tool : Tool Store Args Res)
        → rt.tools_by_name name ≡ some tool
        → (id : Text) (s : AgentState Store) (v : Validated Args) → P s.store
        → P (run_validated rt tool id s v).state.store
    unfolding run_validated
    run_validated-keeps name tool e id s (invalid label) h = h
    run_validated-keeps name tool e id s (valid args) h =
        tool_ended-keeps tool id (record s { store = (tool.run id args s.store).1 })
          (tool.run id args s.store).0 (keep name tool e id args s.store h)

    run_one_tool-keeps :
        (tc : PartialToolCall) (s : AgentState Store)
        → P s.store
        → P (run_one_tool rt tc s).state.store
    unfolding run_one_tool
    run_one_tool-keeps tc s h = elim (Option-cases (rt.tools_by_name tc.name)) [
      | inl e ↦ rw e h
      | inr (tool, e) ↦ rw e (
          run_validated-keeps tc.name tool e tc.id s
            (tool.model_validate_json (args_or_empty rt tc.args)) h)
    ]

    run_tools-keeps :
        (calls : List PartialToolCall) (s : AgentState Store)
        → P s.store
        → P (run_tools rt calls s).state.store
    unfolding run_tools
    run_tools-keeps [] s h = h
    run_tools-keeps (tc ∷ calls) s h =
        after-keeps (run_one_tool rt tc s) (λ s'. run_tools rt calls s') (run_one_tool-keeps tc s h)
          (λ s' h'. run_tools-keeps calls s' h')

    end_turn-keeps :
        (again : AgentState Store → Progress Store) (s : AgentState Store) (t : TurnEnd)
        → P s.store
        → ((s' : AgentState Store) → P s'.store → P (again s').state.store)
        → P (end_turn rt again s t).state.store
    unfolding end_turn
    end_turn-keeps again s (Turn.failed e) h k = h
    end_turn-keeps again s (finished turn) h k =
        let s' : AgentState Store = append_message (assistant_message turn) s in
        elim (Bool-cases (wants_tools rt turn)) [
          | inl e ↦
              rw (e, end_turn)
                (after-keeps (run_tools rt turn.tool_calls s') again
                  (run_tools-keeps turn.tool_calls s' h) k)
          | inr e ↦ rw (e, end_turn) h
        ]

    loop-keeps : (rounds : ℕ) (s : AgentState Store) → P s.store → P (loop rt rounds s).state.store
    unfolding loop
    loop-keeps zero s h = h
    loop-keeps (suc rounds) s h =
        end_turn-keeps (λ s'. loop rt rounds s') _ (stream_one_turn (rt.complete s.messages)).1 h
          (λ s' h'. loop-keeps rounds s' h')

    pub run_agent_stream-keeps :
        (user_input : Text) (prompt : Text ⊎ Text) (history : List HistoryTurn) (store : Store)
        → P store
        → P (run_agent_stream rt user_input prompt history store).state.store
    unfolding run_agent_stream
    run_agent_stream-keeps user_input (inl e) history store h = h
    run_agent_stream-keeps user_input (inr system_prompt) history store h =
        loop-keeps max_tool_turns (start_state system_prompt user_input history store) h
