-- ===== src/Agent/Requests.antt =====
-- What `run_agent_stream` of app/agents/runtime.py sends to the model.
use me.Base.{
  ℕ, zero, suc, ◌≤◌, ◌≡◌, refl, ◌∙◌, sym, ap, some, List, [], ◌∷◌, ◌++◌, map, ◌⊎◌, inl, inr, arith,
  Text, Bool-cases, Option-cases, All, length,
}
use mathlib.Core.List.{append-nil, append_assoc}
use me.Agent.{
  PartialToolCall, ChatMessage, Validated, valid, invalid, ToolOutcome, returned, recoverable,
  raised, Tool, Runtime,
}
use me.Agent.Turn
use me.Agent.Turn.{TurnEnd, finished, stream_one_turn, assistant_message}
use me.Agent.Loop.{
  AgentState, Progress, after, tool_ended, run_validated, args_or_empty, run_one_tool, run_tools,
  wants_tools, end_turn, loop, run_agent_stream, HistoryTurn, max_tool_turns, append_message,
  start_state,
}
use me.Agent.Answers.{
  call_id, awaiting, IsAnswered, build_messages-IsAnswered, assistant-awaits, result-answers,
  Answers, after-Answers,
}

module _ {Store Args Res : Type 0} (rt : Runtime Store Args Res) where
  tool_ended-Answers :
      (tool : Tool Store Args Res) (id : Text) (ids : List Text) (s : AgentState Store)
      (o : ToolOutcome Res)
      → awaiting [] s.messages ≡ some (id ∷ ids)
      → Answers ids s (tool_ended rt tool id s o)
  unfolding tool_ended
  tool_ended-Answers tool id ids s (returned result) h = record {
    answered = λ f. result-answers id _ ids s.messages h;
    same = refl;
  }
  tool_ended-Answers tool id ids s (recoverable label) h = record {
    answered = λ f. result-answers id _ ids s.messages h;
    same = refl;
  }
  tool_ended-Answers tool id ids s (raised e) h = record {
    answered = λ f. absurd (ground arith);
    same = refl;
  }

  run_validated-Answers :
      (tool : Tool Store Args Res) (id : Text) (ids : List Text) (s : AgentState Store)
      (v : Validated Args)
      → awaiting [] s.messages ≡ some (id ∷ ids)
      → Answers ids s (run_validated rt tool id s v)
  unfolding run_validated
  run_validated-Answers tool id ids s (invalid label) h = record {
    answered = λ f. result-answers id _ ids s.messages h;
    same = refl;
  }
  run_validated-Answers tool id ids s (valid args) h =
      let a =
        tool_ended-Answers tool id ids (record s { store = (tool.run id args s.store).1 })
          (tool.run id args s.store).0 h in
      record { answered = a.answered; same = a.same }

  run_one_tool-Answers :
      (tc : PartialToolCall) (ids : List Text) (s : AgentState Store)
      → awaiting [] s.messages ≡ some (tc.id ∷ ids)
      → Answers ids s (run_one_tool rt tc s)
  unfolding run_one_tool
  run_one_tool-Answers tc ids s h = elim (Option-cases (rt.tools_by_name tc.name)) [
    | inl e ↦ rw e (record { answered = λ f. absurd (ground arith); same = refl })
    | inr (tool, e) ↦ rw e (
        run_validated-Answers tool tc.id ids s (tool.model_validate_json (args_or_empty rt tc.args))
          h)
  ]

  run_tools-Answers :
      (calls : List PartialToolCall) (s : AgentState Store)
      → awaiting [] s.messages ≡ some (map call_id calls)
      → Answers [] s (run_tools rt calls s)
  unfolding run_tools
  run_tools-Answers [] s h = record { answered = λ f. h; same = refl }
  run_tools-Answers (tc ∷ calls) s h =
      after-Answers (map call_id calls) [] s (run_one_tool rt tc s) (λ s'. run_tools rt calls s')
        (run_one_tool-Answers tc (map call_id calls) s h)
        (λ e. run_tools-Answers calls (run_one_tool rt tc s).state e)

  -- What the loop sends from a state on: at most `rounds` requests, each of them answered.
  record Sends (rounds : ℕ) (s : AgentState Store) (p : Progress Store) : Type 0 where
    sent : List (List ChatMessage)
    appended : p.state.requests ≡ s.requests ++ sent
    bounded : length sent ≤ rounds
    each : All IsAnswered sent

  no_more :
      (rounds : ℕ) (s : AgentState Store) (p : Progress Store)
      → p.state.requests ≡ s.requests
      → Sends rounds s p
  no_more rounds s p h = record {
    sent = [];
    appended = h ∙ sym (append-nil s.requests);
    bounded = omega arith;
    each = tt;
  }

  after-Sends :
      (rounds : ℕ) (s : AgentState Store) (p : Progress Store)
      (again : AgentState Store → Progress Store)
      → Answers [] s p
      → ((s' : AgentState Store) → IsAnswered s'.messages → Sends rounds s' (again s'))
      → Sends rounds s (after p again)
  after-Sends rounds s p again h k = elim (Option-cases p.failure) [
    | inl e ↦
        let a = k p.state (h.answered e) in
        rw e (record {
          sent = a.sent;
          appended = a.appended ∙ ap (λ l. l ++ a.sent) h.same;
          bounded = a.bounded;
          each = a.each;
        })
    | inr (x, e) ↦ rw e (no_more rounds s (record p { failure = some x }) h.same)
  ]

  end_turn-Sends :
      (rounds : ℕ) (again : AgentState Store → Progress Store) (s : AgentState Store) (t : TurnEnd)
      → IsAnswered s.messages
      → ((s' : AgentState Store) → IsAnswered s'.messages → Sends rounds s' (again s'))
      → Sends rounds s (end_turn rt again s t)
  unfolding end_turn
  end_turn-Sends rounds again s (Turn.failed e) h k = no_more rounds s _ refl
  end_turn-Sends rounds again s (finished turn) h k =
      let s' : AgentState Store = append_message (assistant_message turn) s in
      elim (Bool-cases (wants_tools rt turn)) [
        | inl e ↦
            let r =
              after-Sends rounds s' (run_tools rt turn.tool_calls s') again
                (run_tools-Answers turn.tool_calls s' (assistant-awaits s.messages turn h)) k in
            rw (e, end_turn)
              (record { sent = r.sent; appended = r.appended; bounded = r.bounded; each = r.each })
        | inr e ↦ rw (e, end_turn) (no_more rounds s _ refl)
      ]

  loop-Sends :
      (rounds : ℕ) (s : AgentState Store)
      → IsAnswered s.messages
      → Sends rounds s (loop rt rounds s)
  unfolding loop
  loop-Sends zero s h = no_more zero s _ refl
  loop-Sends (suc rounds) s h =
      let s' : AgentState Store = record s { requests = s.requests ++ s.messages ∷ [] } in
      let r =
        end_turn-Sends rounds (λ s''. loop rt rounds s'') s'
          (stream_one_turn (rt.complete s.messages)).1 h (λ s'' h'. loop-Sends rounds s'' h') in
      record {
        sent = s.messages ∷ r.sent;
        appended = r.appended ∙ append_assoc s.requests (s.messages ∷ []) r.sent;
        bounded = omega arith;
        each = (h, r.each);
      }

  -- `run_agent_stream` calls the model at most `_MAX_TOOL_TURNS` times, and in every request each
  -- tool call of the assistant is followed by its result, in order, before any other message.
  pub run_agent_stream-requests :
      (user_input : Text) (prompt : Text ⊎ Text) (history : List HistoryTurn) (store : Store)
      → (length (run_agent_stream rt user_input prompt history store).state.requests
          ≤ max_tool_turns)
        × All IsAnswered (run_agent_stream rt user_input prompt history store).state.requests
  unfolding run_agent_stream
  run_agent_stream-requests user_input (inl e) history store = (omega arith, tt)
  run_agent_stream-requests user_input (inr system_prompt) history store =
      let r =
        loop-Sends max_tool_turns (start_state system_prompt user_input history store)
          (build_messages-IsAnswered system_prompt user_input history) in
      rw r.appended (r.bounded, r.each)
