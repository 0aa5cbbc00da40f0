-- ===== src/Stream.antt =====
-- The chat stream: app/agents/packets.py, the events of app/schemas/sessions.py, and
-- app/api/_chat_stream.py.
pub mod Steps
pub mod State
pub mod Turn
pub mod Content
pub mod Outcome
pub mod Replay
pub mod Invariant
pub mod Fidelity
pub mod Faithful
pub mod Replayable
pub mod Cached
pub mod Refused
use me.Base.{ℕ, Option, Text}
use me.Cursor.{Json}

pub data Status : Type 0 where
  succeeded failed : Status

-- The packets. A tool packet names its tool, where the source has one class for each; its payload is
-- what `model_dump(mode="json")` makes of it.
pub data Packet : Type 0 where
  start : (assistant_message_id session_id : ℕ) → Packet
  text_delta : (step : Option ℕ) (delta : Text) → Packet
  finish : (assistant_message_id : ℕ) → Packet
  error : (code message : Text) → Packet
  tool_start : (step : Option ℕ) (tool_call_id tool_name : Text) → Packet
  tool_call : (step : Option ℕ) (tool_call_id tool_name : Text) (arguments : Json) → Packet
  tool_end :
      (step : Option ℕ) (tool_call_id tool_name : Text)
      → Status
      → (result : Option Json) (error : Option Text) → Packet

pub record ToolEvent : Type 0 where
  pub step : ℕ
  pub tool_call_id : Text
  pub tool : Text
  pub arguments : Option Json
  pub status : Option Status
  pub result : Option Json
  pub error : Option Text

pub data Event : Type 0 where
  text_event : (step : ℕ) (content : Text) → Event
  tool_event : ToolEvent → Event
