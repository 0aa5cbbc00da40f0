-- ===== src/Agent/Answers.antt =====
-- The tool calls in the messages of app/agents/runtime.py that wait for their results.
use me.Base.{
  ◌≡◌, refl, ◌∙◌, ap, Option, none, some, List, [], ◌∷◌, ◌++◌, map, inl, inr, arith, Text, text_eq,
  text_eq_self, if◌then◌else◌, Bool-cases, Option-cases, codes,
}
use mathlib.Core.Option.{some-injective}
use me.Agent.{PartialToolCall, TurnResult, ChatMessage, plain, assistant, tool_result}
use me.Agent.Turn.{assistant_message}
use me.Agent.Loop.{AgentState, Progress, after, HistoryTurn, history_message, build_messages}

abbrev pub call_id : PartialToolCall → Text
call_id tc = tc.id

-- The ids of the tool calls that still wait for their result after these messages, in order;
-- `none` if a result is not the one awaited, or another message comes before it.
unfoldable pub awaiting : List Text → List ChatMessage → Option (List Text)
awaiting ids [] = some ids
awaiting [] (plain role content ∷ ms) = awaiting [] ms
awaiting [] (assistant content calls ∷ ms) = awaiting (map call_id calls) ms
awaiting [] (tool_result id content ∷ ms) = none
awaiting (i ∷ ids) (plain role content ∷ ms) = none
awaiting (i ∷ ids) (assistant content calls ∷ ms) = none
awaiting (i ∷ ids) (tool_result id content ∷ ms) =
    let rest = awaiting ids ms in if text_eq i id then rest else none

-- A request that the API takes: each tool call is followed by its result.
abbrev pub IsAnswered : List ChatMessage → Type 0
IsAnswered messages = awaiting [] messages ≡ some []

pub awaiting-append :
    (ids mid : List Text) (ms ns : List ChatMessage)
    → awaiting ids ms ≡ some mid
    → awaiting ids (ms ++ ns) ≡ awaiting mid ns
unfolding awaiting
awaiting-append ids mid [] ns h = ap (λ l. awaiting l ns) (some-injective ids mid h)
awaiting-append [] mid (plain role content ∷ ms) ns h = awaiting-append [] mid ms ns h
awaiting-append [] mid (assistant content calls ∷ ms) ns h =
    awaiting-append (map call_id calls) mid ms ns h
awaiting-append [] mid (tool_result id content ∷ ms) ns h = absurd (ground arith)
awaiting-append (i ∷ ids) mid (plain role content ∷ ms) ns h = absurd (ground arith)
awaiting-append (i ∷ ids) mid (assistant content calls ∷ ms) ns h = absurd (ground arith)
awaiting-append (i ∷ ids) mid (tool_result id content ∷ ms) ns h =
    elim (Bool-cases (text_eq i id)) [
      | inl e ↦ rw e (awaiting-append ids mid ms ns (rw e at h))
      | inr e ↦ absurd (ground arith)
    ]

pub history-answered :
    (history : List HistoryTurn) → awaiting [] (map history_message history) ≡ some []
unfolding awaiting
history-answered [] = refl
history-answered (turn ∷ history) = history-answered history

pub build_messages-IsAnswered :
    (system_prompt user_input : Text) (history : List HistoryTurn)
    → IsAnswered (build_messages system_prompt user_input history)
unfolding build_messages awaiting
build_messages-IsAnswered system_prompt user_input history =
    awaiting-append [] [] (map history_message history) (plain (codes "user") user_input ∷ [])
      (history-answered history)

-- The messages after the assistant's reply await the results of its calls.
pub assistant-awaits :
    (ms : List ChatMessage) (turn : TurnResult)
    → IsAnswered ms
    → awaiting [] (ms ++ assistant_message turn ∷ []) ≡ some (map call_id turn.tool_calls)
unfolding assistant_message awaiting
assistant-awaits ms turn h = awaiting-append [] [] ms (assistant_message turn ∷ []) h

pub result-answers :
    (id content : Text) (ids : List Text) (ms : List ChatMessage)
    → awaiting [] ms ≡ some (id ∷ ids)
    → awaiting [] (ms ++ tool_result id content ∷ []) ≡ some ids
unfolding awaiting
result-answers id content ids ms h =
    awaiting-append [] (id ∷ ids) ms (tool_result id content ∷ []) h ∙ rw (text_eq_self id) refl

-- What tool calls leave: unless an exception leaves them, these ids are awaited. They send no request.
pub record Answers {Store : Type 0} (ids : List Text) (s : AgentState Store) (p : Progress Store)
    : Type 0 where
  pub answered : p.failure ≡ none → awaiting [] p.state.messages ≡ some ids
  pub same : p.state.requests ≡ s.requests

pub after-Answers :
    {Store : Type 0} (mid ids : List Text) (s : AgentState Store) (p : Progress Store)
    (next : AgentState Store → Progress Store)
    → Answers mid s p
    → (awaiting [] p.state.messages ≡ some mid → Answers ids p.state (next p.state))
    → Answers ids s (after p next)
after-Answers mid ids s p next h k = elim (Option-cases p.failure) [
  | inl e ↦
      let a = k (h.answered e) in rw e (record { answered = a.answered; same = a.same ∙ h.same })
  | inr (x, e) ↦ rw e (record { answered = λ f. cc; same = h.same })
]
