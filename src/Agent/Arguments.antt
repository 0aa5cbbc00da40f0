-- ===== src/Agent/Arguments.antt =====
-- app/agents/tools/memory.py: the arguments and the results of the tools, and the checks of pydantic.
use me.Base.{
  ℕ, Bool, true, false, ◌&&◌, ◌||◌, Option, List, [], ◌∷◌, ltb, ◌==◌, if◌then◌else◌, Text, codes,
  text_eq, is_none,
}
use me.Cursor.{Json}
use me.Errors.{Error}
use me.Helpers.{Float}
use me.Memory.{MemorySource}
use me.Agent.{Validated, valid, invalid}

pub record SearchMemoriesArgs : Type 0 where
  pub q : Text
  pub limit : ℕ

pub record SearchHit : Type 0 where
  pub memory_id : ℕ
  pub event_date : ℕ
  pub text_preview : Text
  pub similarity : Option Float

pub record SearchMemoriesResult : Type 0 where
  pub source : MemorySource
  pub hits : List SearchHit

pub data Action : Type 0 where
  create update : Action

pub record ManageMemoryArgs : Type 0 where
  pub action : Action
  pub memory_id : Option ℕ
  pub text : Option Text
  pub event_date : Option ℕ
  pub event_time : Option ℕ
  pub event_tz : Option Text
  pub location_lat : Option Float
  pub location_lng : Option Float
  pub location_label : Option Text
  pub idempotency_id : Option ℕ

-- `MemoryAgentView` of app/schemas/memory.py.
pub record MemoryAgentView : Type 0 where
  pub id : ℕ
  pub text : Text
  pub event_date : ℕ
  pub event_time : Option ℕ
  pub event_tz : Text
  pub location_lat : Option Float
  pub location_lng : Option Float
  pub location_label : Option Text

-- The arguments and the results of either tool.
pub data ToolArgs : Type 0 where
  search_args : SearchMemoriesArgs → ToolArgs
  manage_args : ManageMemoryArgs → ToolArgs

pub data ToolResult : Type 0 where
  search_result : SearchMemoriesResult → ToolResult
  memory_detail : MemoryAgentView → ToolResult

-- What the tools use of pydantic: the fields that a JSON text gives, where `parse_manage` applies the
-- validator of `event_time` to a text before it parses it, the label of an error of a validator, and
-- the dumps; and `f"{type(exc).__name__}: {exc}"` and the class of an error.
pub record Pydantic : Type 0 where
  pub parse_search : Text → Validated SearchMemoriesArgs
  pub parse_manage : (Text → Text) → Text → Validated ManageMemoryArgs
  pub validation_label : Text → Text
  pub dump_args : ToolArgs → Json
  pub dump_result : ToolResult → Json
  pub result_json : ToolResult → Text
  pub error_label : Error → Text
  pub class_name : Error → Text
  -- whether `\d` matches the character
  pub is_decimal : ℕ → Bool

module _ (py : Pydantic) where
  -- `:?\d{2}` and the end.
  digits_end : Text → Bool
  digits_end [] = true
  digits_end (a ∷ b ∷ []) = py.is_decimal a && py.is_decimal b
  digits_end (c ∷ a ∷ b ∷ []) = c == b':' && py.is_decimal a && py.is_decimal b
  digits_end _ = false

  -- `\d{2}(:?\d{2})?` and the end, then `:?` in front of it.
  minutes_end : Text → Bool
  minutes_end (a ∷ b ∷ t) = py.is_decimal a && py.is_decimal b && digits_end t
  minutes_end _ = false

  colon_minutes_end : Text → Bool
  unfolding minutes_end digits_end
  colon_minutes_end [] = false
  colon_minutes_end (c ∷ t) = if c == b':' then minutes_end t else minutes_end (c ∷ t)

  -- `[+-]\d{2}:?\d{2}(:?\d{2})?` and the end
  offset_end : Text → Bool
  unfolding colon_minutes_end
  offset_end (s ∷ a ∷ b ∷ t) =
      (s == b'+' || s == b'-') && py.is_decimal a && py.is_decimal b && colon_minutes_end t
  offset_end _ = false

  -- `$` is the end, or the place before a final line feed.
  without_newline : Text → Text
  without_newline [] = []
  without_newline (c ∷ []) = if c == b'\n' then [] else c ∷ []
  without_newline (c ∷ d ∷ t) = c ∷ without_newline (d ∷ t)

  final_newline : Text → Text
  final_newline [] = []
  final_newline (c ∷ []) = if c == b'\n' then c ∷ [] else []
  final_newline (c ∷ d ∷ t) = final_newline (d ∷ t)

  -- `Z`, or an offset, and the end.
  unfoldable pub is_tz_suffix : Text → Bool
  unfolding offset_end without_newline
  is_tz_suffix t = text_eq (without_newline t) (codes "Z") || offset_end (without_newline t)

  -- `re.sub(r"(Z|[+-]\d{2}:?\d{2}(:?\d{2})?)$", "", v)`: the suffix goes from its first position on.
  unfoldable pub strip_event_time_tz_suffix : Text → Text
  unfolding is_tz_suffix final_newline
  strip_event_time_tz_suffix [] = []
  strip_event_time_tz_suffix (c ∷ t) =
      let rest = strip_event_time_tz_suffix t in
      if is_tz_suffix (c ∷ t) then final_newline (c ∷ t) else c ∷ rest

  -- `limit: int = Field(10, ge=1, le=50)`
  unfoldable pub check_search : Validated SearchMemoriesArgs → Validated ToolArgs
  check_search (invalid label) = invalid label
  check_search (valid a) =
      if ltb a.limit 1
      then invalid (py.validation_label (codes "limit"))
      else if ltb 50 a.limit
      then invalid (py.validation_label (codes "limit"))
      else valid (search_args a)

  -- `_per_action_required`
  unfoldable pub per_action_required : ManageMemoryArgs → Action → Validated ToolArgs
  per_action_required a create =
      if is_none a.text || is_none a.event_date || is_none a.event_tz
      then invalid (py.validation_label (codes "create requires text, event_date, event_tz"))
      else valid (manage_args a)
  per_action_required a update =
      if is_none a.memory_id
      then invalid (py.validation_label (codes "update requires memory_id"))
      else valid (manage_args a)

  unfoldable pub check_manage : Validated ManageMemoryArgs → Validated ToolArgs
  unfolding per_action_required
  check_manage (invalid label) = invalid label
  check_manage (valid a) = per_action_required a a.action
