-- ===== src/Agent/Tools.antt =====
-- app/agents/tools/memory.py and app/agents/tools/__init__.py: the tools of the agent over the memory
-- service.
use me.Base.{
  ℕ, Bool, true, false, Option, none, some, map, if◌then◌else◌, Text, codes, text_eq, take,
}
use me.Platform.{Platform}
use me.Errors.{
  Error, Result, ok, err, memory_not_found, memory_duplicate, memory_validation_error,
  memory_idempotency_reused,
}
use me.Helpers.{Float}
use me.MemoryClient.{MemoryClient}
use me.Memory.{Memory, World}
use me.Memory.Create.{CreateArgs, create_memory}
use me.Memory.Update.{Field, unset, set, Patch, update_memory}
use me.Memory.Search.{search_memories}
use me.Agent.{ToolOutcome, returned, recoverable, raised, Tool}
use me.Agent.Arguments.{
  SearchHit, Action, create, update, ManageMemoryArgs, MemoryAgentView, ToolArgs, search_args,
  manage_args, ToolResult, search_result, memory_detail, Pydantic, strip_event_time_tz_suffix,
  check_search, check_manage,
}

-- `memory.text[:300]`
abbrev pub search_hit : Memory × Option Float → SearchHit
search_hit (m, similarity) = record {
  memory_id = m.id;
  event_date = m.event_date;
  text_preview = take 300 m.text;
  similarity = similarity;
}

abbrev pub agent_view : Memory → MemoryAgentView
agent_view m = record {
  id = m.id;
  text = m.text;
  event_date = m.event_date;
  event_time = m.event_time;
  event_tz = m.event_tz;
  location_lat = m.location_lat;
  location_lng = m.location_lng;
  location_label = m.location_label;
}

-- `_MODEL_RECOVERABLE_TOOL_ERRORS`, as far as the memory service raises them.
unfoldable pub is_recoverable : Error → Bool
is_recoverable memory_not_found = true
is_recoverable memory_duplicate = true
is_recoverable (memory_validation_error reason) = true
is_recoverable memory_idempotency_reused = true
is_recoverable _ = false

-- `_unset_unprovided`: what the model leaves out stays as it is.
abbrev pub provided : {A : Type 0} → Option A → Field A
provided none = unset
provided (some v) = set v

abbrev pub provided_nullable : {A : Type 0} → Option A → Field (Option A)
provided_nullable none = unset
provided_nullable (some v) = set (some v)

unfoldable pub unset_unprovided : ManageMemoryArgs → Patch
unset_unprovided a = record {
  text = provided a.text;
  event_date = provided a.event_date;
  event_time = provided_nullable a.event_time;
  event_tz = provided a.event_tz;
  location_lat = provided_nullable a.location_lat;
  location_lng = provided_nullable a.location_lng;
  location_label = provided_nullable a.location_label;
}

abbrev pub create_args : (user_id : ℕ) → ManageMemoryArgs → Text → ℕ → Text → CreateArgs
create_args user_id a text event_date event_tz = record {
  user_id = user_id;
  text = text;
  event_date = event_date;
  event_tz = event_tz;
  event_time = a.event_time;
  location_lat = a.location_lat;
  location_lng = a.location_lng;
  location_label = a.location_label;
  idempotency_id = a.idempotency_id;
}

-- What the tools run on: the services' platform and backend, the user, and the clock and the drawn ids
-- at each state.
pub record AgentContext : Type 0 where
  pub platform : Platform
  pub memory_client : MemoryClient
  pub user_id : ℕ
  pub now : World → ℕ
  pub new_id : World → ℕ

module _ (py : Pydantic) (ctx : AgentContext) where
  abbrev pub assertion_error : World → ToolOutcome ToolResult × World
  assertion_error w = (raised (codes "AssertionError"), w)

  unfoldable pub detail : Result Memory × World → ToolOutcome ToolResult × World
  unfolding is_recoverable
  detail (ok row, w) = (returned (memory_detail (agent_view row)), w)
  detail (err e, w) =
      (if is_recoverable e then recoverable (py.error_label e) else raised (py.class_name e), w)

  -- The three values that a creation needs.
  unfoldable pub run_create :
      ManageMemoryArgs
      → Option Text
      → Option ℕ
      → Option Text
      → World
      → ToolOutcome ToolResult × World
  unfolding detail
  run_create a (some text) (some event_date) (some event_tz) w = detail (
      create_memory ctx.platform ctx.memory_client (ctx.now w) (ctx.new_id w)
        (create_args ctx.user_id a text event_date event_tz) w)
  run_create a _ _ _ w = assertion_error w

  unfoldable pub run_update : ManageMemoryArgs → Option ℕ → World → ToolOutcome ToolResult × World
  unfolding detail unset_unprovided
  run_update a none w = assertion_error w
  run_update a (some memory_id) w = detail (
      update_memory ctx.platform ctx.memory_client (ctx.now w) ctx.user_id memory_id
        (unset_unprovided a) w)

  unfoldable pub run_action : ManageMemoryArgs → Action → World → ToolOutcome ToolResult × World
  unfolding run_create run_update
  run_action a create w = run_create a a.text a.event_date a.event_tz w
  run_action a update w = run_update a a.memory_id w

  -- `SearchMemoriesTool.run` and `ManageMemoryTool.run`; arguments of the other class lack the fields
  -- that `run` reads.
  unfoldable pub run_search : ToolArgs → World → ToolOutcome ToolResult × World
  run_search (manage_args a) w = (raised (codes "AttributeError"), w)
  run_search (search_args a) w =
      let (found, w') = search_memories ctx.platform ctx.memory_client ctx.user_id a.q a.limit w in
      (
        returned
            (search_result (record { source = found.source; hits = map search_hit found.hits })),
        w',
      )

  unfoldable pub run_manage : ToolArgs → World → ToolOutcome ToolResult × World
  unfolding run_action
  run_manage (search_args a) w = (raised (codes "AttributeError"), w)
  run_manage (manage_args a) w = run_action a a.action w

  unfoldable pub search_memories_tool : Tool World ToolArgs ToolResult
  unfolding run_search check_search
  search_memories_tool = record {
    name = codes "search_memories";
    model_validate_json = λ json. check_search py (py.parse_search json);
    run = λ id args w. run_search args w;
    dump_args = py.dump_args;
    dump_result = py.dump_result;
    result_json = py.result_json;
  }

  unfoldable pub manage_memory_tool : Tool World ToolArgs ToolResult
  unfolding run_manage check_manage strip_event_time_tz_suffix
  manage_memory_tool = record {
    name = codes "manage_memory";
    model_validate_json =
        λ json. check_manage py (py.parse_manage (λ t. strip_event_time_tz_suffix py t) json);
    run = λ id args w. run_manage args w;
    dump_args = py.dump_args;
    dump_result = py.dump_result;
    result_json = py.result_json;
  }

  -- `TOOL_CLASS_BY_NAME`
  unfoldable pub tool_by_name : Text → Option (Tool World ToolArgs ToolResult)
  tool_by_name name =
      if text_eq name (codes "search_memories")
      then some search_memories_tool
      else if text_eq name (codes "manage_memory")
      then some manage_memory_tool
      else none
