-- ===== src/Agent.antt =====
-- The chat agent: app/agents/runtime.py, app/agents/instructions.py, app/agents/tools/.
pub mod Arguments
pub mod Answers
pub mod Prompt
pub mod Turn
pub mod Loop
pub mod Timeline
pub mod Failure
pub mod Requests
pub mod Folding
pub mod Merged
pub mod Tools
pub mod Store
pub mod Memories
pub mod Edits
use me.Base.{ℕ, Option, List, Text}
use me.Cursor.{Json}

-- What one chunk of a chat completion carries, as the SDK delivers it.
pub record FunctionDelta : Type 0 where
  pub name : Option Text
  pub arguments : Option Text

pub record ToolDelta : Type 0 where
  pub index : ℕ
  pub id : Option Text
  pub function : Option FunctionDelta

pub record Choice : Type 0 where
  pub content : Option Text
  pub tool_calls : List ToolDelta
  pub finish_reason : Option Text

-- A chunk is its list of choices. A stream is its chunks, and the class of the exception that ends
-- it, if one does.
pub record ModelStream : Type 0 where
  pub chunks : List (List Choice)
  pub failure : Option Text

-- `_PartialToolCall`
pub record PartialToolCall : Type 0 where
  pub id : Text
  pub name : Text
  pub args : Text

-- `_TurnResult`
pub record TurnResult : Type 0 where
  pub text : Text
  pub tool_calls : List PartialToolCall
  pub finish_reason : Option Text

-- The entries of `messages`.
pub data ChatMessage : Type 0 where
  plain : (role content : Text) → ChatMessage
  assistant : (content : Option Text) → List PartialToolCall → ChatMessage
  tool_result : (tool_call_id content : Text) → ChatMessage

-- `ARGS_MODEL.model_validate_json`: the arguments, or the label of the `ValidationError`.
pub data Validated (Args : Type 0) : Type 0 where
  valid : Args → Validated Args
  invalid : (error_label : Text) → Validated Args

-- How `tool.run` ends: with a result, with an exception of `_MODEL_RECOVERABLE_TOOL_ERRORS` (its
-- label, `f"{type(exc).__name__}: {exc}"`), or with another (its class).
pub data ToolOutcome (Res : Type 0) : Type 0 where
  returned : Res → ToolOutcome Res
  recoverable : (error_label : Text) → ToolOutcome Res
  raised : (class_name : Text) → ToolOutcome Res

-- app/agents/tools/_base.py: a tool over a store that its `run` may change.
pub record Tool (Store Args Res : Type 0) : Type 0 where
  pub name : Text
  pub model_validate_json : Text → Validated Args
  pub run : Text → Args → Store → ToolOutcome Res × Store
  -- `model_dump` of the arguments and of the result, as the packets carry them
  pub dump_args : Args → Json
  pub dump_result : Res → Json
  -- `result.model_dump_json()`
  pub result_json : Res → Text

-- What the loop uses of other code: the registered tools by name, the model behind the SDK, and
-- `json.dumps({"error": label})`.
pub record Runtime (Store Args Res : Type 0) : Type 0 where
  pub tools_by_name : Text → Option (Tool Store Args Res)
  pub complete : List ChatMessage → ModelStream
  pub dumps_error : Text → Text
