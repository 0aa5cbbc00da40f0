-- ===== src/Tests/Tools.antt =====
-- The theorems on the memory tools at concrete inputs.
use me.Base.{
  ℕ, suc, ◌≡◌, refl, false, Option, none, some, List, [], ◌∷◌, Text, codes, text_eq, ◌⊎◌, inl, inr,
  All, length, ◌≤◌, ltb, if◌then◌else◌, is_some,
}
use me.Cursor.{str}
use me.Agent.{ToolDelta, ModelStream, TurnResult, ChatMessage, valid, returned, Tool, Runtime}
use me.Agent.Loop.{run_agent_stream}
use me.Memory.Valid.{IsTable}
use me.Memory.Owner.{rows_of}
use me.Agent.Arguments.{MemoryAgentView, memory_detail, update, Pydantic, ManageMemoryArgs, create}
use me.Agent.Tools.{run_update, AgentContext}
use me.Memory.{Memory, World}
use me.Memory.Table.{find_owned_live}
use me.Agent.Edits.{edited_view, run_update-view}
use me.Agent.Memories.{memory_runtime, run_agent_stream-memories}
use me.Tests.Data.{platform, accepting, one_memory}
use me.Tests.Memories.{one_memory-IsTable, stored_row, three_not_four}
use me.Tests.Agents.{answering, prompt}

-- The memory tools, where any text stands for the arguments of one creation.
abbrev likes_tea : ManageMemoryArgs
likes_tea = record {
  action = create;
  memory_id = none;
  text = some (codes "likes tea");
  event_date = some 738000;
  event_time = none;
  event_tz = some (codes "UTC");
  location_lat = none;
  location_lng = none;
  location_label = none;
  idempotency_id = none;
}

abbrev pydantic : Pydantic
pydantic = record {
  parse_search = λ json. valid (record { q = json; limit = 10 });
  parse_manage = λ validator json. valid likes_tea;
  validation_label = λ text. text;
  dump_args = λ args. str [];
  dump_result = λ result. str [];
  result_json = λ result. [];
  error_label = λ e. [];
  class_name = λ e. [];
  is_decimal = λ c. false;
}

abbrev context : AgentContext
context = record {
  platform = platform;
  memory_client = accepting;
  user_id = 3;
  now = λ w. 1001;
  new_id = λ w. 8;
}

abbrev calling : ModelStream
calling = record {
  chunks =
      (record {
        content = none;
        tool_calls =
            record {
              index = 0;
              id = some (codes "c1");
              function =
                  some
                    (record { name = some (codes "manage_memory"); arguments = some (codes "{}") });
            }
            ∷ [];
        finish_reason = some (codes "tool_calls");
      }
        ∷ [])
      ∷ [];
  failure = none;
}

abbrev asks_once : List ChatMessage → ModelStream
asks_once messages = if ltb (length messages) 3 then calling else answering

run_agent_stream-memories_example :
    IsTable platform
      (run_agent_stream
        (memory_runtime pydantic context asks_once (λ label. label))
        (codes "Hi")
        prompt
        []
        one_memory).state.store.memories
    × (rows_of 4
          (run_agent_stream
            (memory_runtime pydantic context asks_once (λ label. label))
            (codes "Hi")
            prompt
            []
            one_memory).state.store.memories
        ≡ rows_of 4 one_memory.memories)
run_agent_stream-memories_example =
    run_agent_stream-memories pydantic context asks_once (λ label. label) (codes "Hi") prompt [] 4
      one_memory three_not_four one_memory-IsTable

-- An update of the stored memory that gives a date only.
abbrev moved : ManageMemoryArgs
moved = record likes_tea {
  action = update;
  memory_id = some 7;
  text = none;
  event_date = some 738001;
  event_tz = none;
}

abbrev moved_view : MemoryAgentView
moved_view = record {
  id = 7;
  text = codes "likes coffee";
  event_date = 738001;
  event_time = none;
  event_tz = codes "UTC";
  location_lat = none;
  location_lng = none;
  location_label = none;
}

abbrev at_three : World
at_three = record { memories = stored_row ∷ []; calls = [] }

moves :
    (run_update pydantic context moved (some 7) at_three).0 ≡ returned (memory_detail moved_view)
unfolding run_update me.Agent.Tools.detail me.Agent.Tools.unset_unprovided
    me.Memory.Update.update_memory me.Base.find me.Memory.Update.update_found
    me.Memory.Update.update_checks me.Memory.Update.update_row me.Memory.Update.apply_patch
    me.Memory.Update.with_text me.Memory.Update.text_changed me.Memory.Table.update_violation
    me.Base.any me.Memory.Update.update_flushed me.Memory.Update.send_update
    me.Memory.Remote.send_to_supermemory_add me.Helpers.canonical_hash me.Text.utf8
    me.Helpers.validate_location_pair me.Text.strip
moves = refl

run_update-view_example :
    (old : Memory) × (find_owned_live 3 7 at_three.memories ≡ some old)
    × (moved_view ≡ edited_view moved old)
run_update-view_example = run_update-view pydantic context moved 7 moved_view at_three moves
