-- ===== src/Agent/Failure.antt =====
-- When an exception leaves `run_agent_stream` of app/agents/runtime.py.
use me.Base.{◌≡◌, refl, ◌∙◌, List, ◌⊎◌, inl, inr, Text, is_some}
use me.Agent.Prompt.{render_system_prompt, is_raised, render_system_prompt-is_raised}
use me.Agent.{Runtime}
use me.Agent.Loop.{run_agent_stream, HistoryTurn}

module _ {Store Args Res : Type 0} (rt : Runtime Store Args Res) where
  failure-is_raised :
      (user_input : Text) (prompt : Text ⊎ Text) (history : List HistoryTurn) (store : Store)
      → is_some (run_agent_stream rt user_input prompt history store).failure ≡ is_raised prompt
  unfolding run_agent_stream
  failure-is_raised user_input (inl e) history store = refl
  failure-is_raised user_input (inr system_prompt) history store = refl

-- An exception leaves `run_agent_stream` exactly when the local time of the prompt cannot be computed
-- in the time zone that the client names; whatever the model and the tools raise does not leave it.
pub run_agent_stream-failure :
    {Store Args Res : Type 0} (rt : Runtime Store Args Res) (localize : Text → Text → Text ⊎ Text)
    (user_input now_utc client_tz : Text) (history : List HistoryTurn) (store : Store)
    → is_some
        (run_agent_stream rt user_input
          (render_system_prompt localize now_utc client_tz)
          history
          store).failure
      ≡ is_raised (localize now_utc client_tz)
run_agent_stream-failure rt localize user_input now_utc client_tz history store =
    failure-is_raised rt user_input (render_system_prompt localize now_utc client_tz) history store
    ∙ render_system_prompt-is_raised localize now_utc client_tz
