-- ===== src/Agent/Timeline.antt =====
-- The packets that `run_agent_stream` of app/agents/runtime.py yields.
use me.Base.{
  ℕ, zero, suc, ◌≡◌, refl, false, Option, none, some, List, [], ◌∷◌, ◌++◌, ◌⊎◌, inl, inr, Text,
  is_empty, Bool-cases, Option-cases, any, codes,
}
use mathlib.Core.List.{append-nil}
use me.Cursor.{Json}
use me.Stream.{
  Status, Packet, text_delta, error, tool_start, tool_call, tool_end, succeeded, failed,
}
use me.Stream.Outcome.{is_finish}
use me.Agent.{
  Choice, PartialToolCall, Validated, valid, invalid, ToolOutcome, returned, recoverable, raised,
  Tool, Runtime,
}
use me.Agent.Turn
use me.Agent.Turn.{
  TurnState, TurnEnd, finished, content_packets, fold_choice, stream_chunks, new_turn,
  stream_one_turn, assistant_message,
}
use me.Agent.Loop.{
  AgentState, Progress, after, tool_ended, run_validated, run_one_tool, run_tools, wants_tools,
  end_turn, loop, guarded, run_agent_stream, HistoryTurn, max_tool_turns, append_message,
  start_state,
}

-- Text, and whole tool calls: each starts, may be called, and ends, under one id and one name,
-- before anything else is sent. Then comes `closing`.
pub data Timeline (closing : List Packet) : List Packet → Type 0 where
  closed : (ps : List Packet) → ps ≡ closing → Timeline closing ps
  said :
      {ps : List Packet} (delta : Text)
      → Timeline closing ps
      → Timeline closing (text_delta none delta ∷ ps)
  refused :
      {ps : List Packet} (id name label : Text)
      → Timeline closing ps
      → Timeline closing
          (tool_start none id name ∷ tool_end none id name failed none (some label) ∷ ps)
  ran :
      {ps : List Packet} (id name : Text) (arguments : Json) (status : Status)
      (result : Option Json) (err : Option Text)
      → Timeline closing ps
      → Timeline closing (
          tool_start none id name
          ∷ tool_call none id name arguments
          ∷ tool_end none id name status result err
          ∷ ps)

nothing : Timeline [] []
nothing = closed [] refl

extend :
    {closing xs : List Packet} (ys : List Packet)
    → Timeline [] xs
    → Timeline closing ys
    → Timeline closing (xs ++ ys)
extend ys (closed ps e) t = rw e t
extend ys (said delta r) t = said delta (extend ys r t)
extend ys (refused id name label r) t = refused id name label (extend ys r t)
extend ys (ran id name arguments status result err r) t =
    ran id name arguments status result err (extend ys r t)

content_packets-Timeline : (content : Option Text) → Timeline [] (content_packets content)
unfolding content_packets
content_packets-Timeline none = nothing
content_packets-Timeline (some content) = elim (Bool-cases (is_empty content)) [
  | inl e ↦ rw e nothing
  | inr e ↦ rw e (said content nothing)
]

stream_chunks-Timeline :
    (chunks : List (List Choice)) (s : TurnState) → Timeline [] (stream_chunks chunks s).0
unfolding stream_chunks
stream_chunks-Timeline [] s = nothing
stream_chunks-Timeline ([] ∷ chunks) s = stream_chunks-Timeline chunks s
stream_chunks-Timeline ((choice ∷ others) ∷ chunks) s =
    extend _ (content_packets-Timeline choice.content)
      (stream_chunks-Timeline chunks (fold_choice choice s))

-- How the loop ends: by itself or with an exception, or at the cap.
cap_packet : List Packet
cap_packet = error (codes "agent_max_turns") (codes "tool loop exceeded cap") ∷ []

data Ends {Store : Type 0} (p : Progress Store) : Type 0 where
  unmarked : Timeline [] p.packets → Ends p
  capped : Timeline cap_packet p.packets → p.failure ≡ none → Ends p

prefixed :
    {Store : Type 0} (packets : List Packet) (p : Progress Store)
    → Timeline [] packets
    → Ends p
    → Ends (record p { packets = packets ++ p.packets })
prefixed packets p t (unmarked u) = unmarked (extend p.packets t u)
prefixed packets p t (capped u e) = capped (extend p.packets t u) e

after-Ends :
    {Store : Type 0} (p : Progress Store) (next : AgentState Store → Progress Store)
    → Timeline [] p.packets
    → Ends (next p.state)
    → Ends (after p next)
after-Ends p next t u = elim (Option-cases p.failure) [
  | inl e ↦ rw e (prefixed p.packets (next p.state) t u)
  | inr (x, e) ↦ rw e (unmarked t)
]

after-Timeline :
    {Store : Type 0} (p : Progress Store) (next : AgentState Store → Progress Store)
    → Timeline [] p.packets
    → Timeline [] (next p.state).packets
    → Timeline [] (after p next).packets
after-Timeline p next t u = elim (Option-cases p.failure) [
  | inl e ↦ rw e (extend (next p.state).packets t u)
  | inr (x, e) ↦ rw e t
]

module _ {Store Args Res : Type 0} (rt : Runtime Store Args Res) where
  tool_ended-Timeline :
      (tool : Tool Store Args Res) (id : Text) (s : AgentState Store) (arguments : Json)
      (o : ToolOutcome Res)
      → Timeline [] (
          tool_start none id tool.name
          ∷ tool_call none id tool.name arguments
          ∷ (tool_ended rt tool id s o).packets)
  unfolding tool_ended
  tool_ended-Timeline tool id s arguments (returned result) =
      ran id tool.name arguments succeeded _ _ nothing
  tool_ended-Timeline tool id s arguments (recoverable label) =
      ran id tool.name arguments failed _ _ nothing
  tool_ended-Timeline tool id s arguments (raised e) = ran id tool.name arguments failed _ _ nothing

  run_validated-Timeline :
      (tool : Tool Store Args Res) (id : Text) (s : AgentState Store) (v : Validated Args)
      → Timeline [] (run_validated rt tool id s v).packets
  unfolding run_validated
  run_validated-Timeline tool id s (invalid label) = refused id tool.name label nothing
  run_validated-Timeline tool id s (valid args) =
      tool_ended-Timeline tool id (record s { store = (tool.run id args s.store).1 })
        (tool.dump_args args) (tool.run id args s.store).0

  run_one_tool-Timeline :
      (tc : PartialToolCall) (s : AgentState Store) → Timeline [] (run_one_tool rt tc s).packets
  unfolding run_one_tool
  run_one_tool-Timeline tc s = elim (Option-cases (rt.tools_by_name tc.name)) [
    | inl e ↦ rw e nothing
    | inr (tool, e) ↦ rw e (run_validated-Timeline tool tc.id s _)
  ]

  run_tools-Timeline :
      (calls : List PartialToolCall) (s : AgentState Store)
      → Timeline [] (run_tools rt calls s).packets
  unfolding run_tools
  run_tools-Timeline [] s = nothing
  run_tools-Timeline (tc ∷ calls) s =
      after-Timeline (run_one_tool rt tc s) (λ s'. run_tools rt calls s')
        (run_one_tool-Timeline tc s) (run_tools-Timeline calls (run_one_tool rt tc s).state)

  end_turn-Ends :
      (again : AgentState Store → Progress Store) (s : AgentState Store) (t : TurnEnd)
      → ((s' : AgentState Store) → Ends (again s'))
      → Ends (end_turn rt again s t)
  unfolding end_turn
  end_turn-Ends again s (Turn.failed e) h = unmarked nothing
  end_turn-Ends again s (finished turn) h =
      let s' : AgentState Store = append_message (assistant_message turn) s in
      elim (Bool-cases (wants_tools rt turn)) [
        | inl e ↦
            rw (e, end_turn)
              (after-Ends (run_tools rt turn.tool_calls s') again
                (run_tools-Timeline turn.tool_calls s') (h (run_tools rt turn.tool_calls s').state))
        | inr e ↦ rw (e, end_turn) (unmarked nothing)
      ]

  loop-Ends : (rounds : ℕ) (s : AgentState Store) → Ends (loop rt rounds s)
  unfolding loop stream_one_turn cap_packet
  loop-Ends zero s = capped (closed _ refl) refl
  loop-Ends (suc rounds) s =
      prefixed _ _ (stream_chunks-Timeline (rt.complete s.messages).chunks new_turn)
        (end_turn-Ends _ _ _ (λ s'. loop-Ends rounds s'))

-- The end of the whole stream.
pub data IsClosing : List Packet → Type 0 where
  clean : IsClosing []
  reported : (code message : Text) → IsClosing (error code message ∷ [])

abbrev pub IsTimeline : List Packet → Type 0
IsTimeline packets = (closing : List Packet) × IsClosing closing × Timeline closing packets

guarded-IsTimeline : {Store : Type 0} (p : Progress Store) → Ends p → IsTimeline (guarded p).packets
unfolding cap_packet
guarded-IsTimeline p (unmarked t) = elim (Option-cases p.failure) [
  | inl e ↦ rw e ([], clean, extend [] t nothing)
  | inr (x, e) ↦ rw e (_, reported (codes "agent_failed") x, extend _ t (closed _ refl))
]
guarded-IsTimeline p (capped t e) = rw e (rw append-nil (_, reported _ _, t))

module _ {Store Args Res : Type 0} (rt : Runtime Store Args Res) where
  -- Whatever the model and the tools do, the packets of `run_agent_stream` are text fragments and whole
  -- tool calls, and at most one error packet, at the end. A tool call starts, may be called, and ends,
  -- all under one id and one name, before anything else is sent; if its arguments are refused, it ends
  -- with an error and is not called.
  pub run_agent_stream-IsTimeline :
      (user_input : Text) (prompt : Text ⊎ Text) (history : List HistoryTurn) (store : Store)
      → IsTimeline (run_agent_stream rt user_input prompt history store).packets
  unfolding run_agent_stream
  run_agent_stream-IsTimeline user_input (inl e) history store = ([], clean, nothing)
  run_agent_stream-IsTimeline user_input (inr system_prompt) history store =
      guarded-IsTimeline _
        (loop-Ends rt max_tool_turns (start_state system_prompt user_input history store))

-- No packet of it frames a stream.
Timeline-unframed :
    {closing packets : List Packet}
    → Timeline closing packets
    → any is_finish closing ≡ false
    → any is_finish packets ≡ false
unfolding any
Timeline-unframed (closed ps e) h = rw e h
Timeline-unframed (said delta t) h = Timeline-unframed t h
Timeline-unframed (refused id name label t) h = Timeline-unframed t h
Timeline-unframed (ran id name arguments status result err t) h = Timeline-unframed t h

IsClosing-unframed : {closing : List Packet} → IsClosing closing → any is_finish closing ≡ false
unfolding any
IsClosing-unframed clean = refl
IsClosing-unframed (reported code message) = refl

pub IsTimeline-unframed :
    (packets : List Packet) → IsTimeline packets → any is_finish packets ≡ false
IsTimeline-unframed packets (closing, c, t) = Timeline-unframed t (IsClosing-unframed c)
