-- ===== src/Stream/Steps.antt =====
-- `StepAssigner` of app/api/_chat_stream.py.
use me.Base.{ℕ, ◌+◌, Option, none, some, List, [], ◌∷◌, Text, text_eq, if◌then◌else◌}
use me.Stream.{Packet, text_delta, tool_start, tool_call, tool_end}

pub data Kind : Type 0 where
  text tool : Kind

pub record StepAssigner : Type 0 where
  pub next : ℕ
  pub text_step : Option ℕ
  pub tool_steps : List (Text × ℕ)
  pub last_kind : Option Kind

abbrev pub new_assigner : StepAssigner
new_assigner = record { next = 1; text_step = none; tool_steps = []; last_kind = none }

unfoldable pub lookup_step : Text → List (Text × ℕ) → Option ℕ
lookup_step id [] = none
lookup_step id ((j, s) ∷ steps) = if text_eq j id then some s else lookup_step id steps

unfoldable pub open_text : Option Kind → StepAssigner → Option ℕ × StepAssigner
open_text (some text) a = (a.text_step, a)
open_text last a =
    (some a.next, record a { text_step = some a.next; next = a.next + 1; last_kind = some text })

-- `tool_call_id` is known, or gets the next step.
unfoldable pub tool_slot : Text → Option ℕ → StepAssigner → Option ℕ × StepAssigner
tool_slot id (some s) a = (some s, record a { last_kind = some tool })
tool_slot id none a = (
  some a.next,
  record {
    next = a.next + 1;
    text_step = none;
    tool_steps = (id, a.next) ∷ a.tool_steps;
    last_kind = some tool;
  },
)

unfoldable pub tool_step : Text → StepAssigner → Option ℕ × StepAssigner
unfolding tool_slot
tool_step id a = tool_slot id (lookup_step id a.tool_steps) a

unfoldable pub step_for : Packet → StepAssigner → Option ℕ × StepAssigner
unfolding open_text tool_step
step_for (text_delta step delta) a = open_text a.last_kind a
step_for (tool_start step id name) a = tool_step id a
step_for (tool_call step id name arguments) a = tool_step id a
step_for (tool_end step id name status result err) a = tool_step id a
step_for p a = (none, a)

-- `packet.step = step`, if there is a step.
unfoldable pub with_step : Option ℕ → Packet → Packet
with_step (some s) (text_delta step delta) = text_delta (some s) delta
with_step (some s) (tool_start step id name) = tool_start (some s) id name
with_step (some s) (tool_call step id name arguments) = tool_call (some s) id name arguments
with_step (some s) (tool_end step id name status result err) =
    tool_end (some s) id name status result err
with_step step p = p
