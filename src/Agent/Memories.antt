-- ===== src/Agent/Memories.antt =====
-- What a run of the agent with its tools does to the memories.
use me.Base.{
  ℕ, ◌≡◌, ◌≢◌, refl, sym, ◌∙◌, Option, none, some, List, inl, inr, Bool-cases, Text, codes, text_eq,
  ◌⊎◌,
}
use me.Platform.{Platform}
use me.Errors.{Result, ok, err}
use me.Memory.{Memory, World}
use me.Memory.Valid.{IsTable}
use me.Memory.History.{Request, perform, create, update, search, perform-IsTable}
use me.Memory.Owner.{rows_of}
use me.Memory.Isolation.{perform-others, request_user}
use me.Agent.{ModelStream, ChatMessage, Tool, Runtime}
use me.Agent.Loop.{HistoryTurn, run_agent_stream}
use me.Agent.Store.{ToolsKeep, run_agent_stream-keeps}
use me.Agent.Arguments.{
  ToolArgs, search_args, manage_args, ToolResult, ManageMemoryArgs, Action, Pydantic,
}
use me.Agent.Tools.{
  AgentContext, detail, create_args, unset_unprovided, run_create, run_update, run_action,
  run_search, run_manage, search_memories_tool, manage_memory_tool, tool_by_name,
}
use me.Agent.Arguments

-- The runtime of the program: its tools, for a user and a backend.
abbrev pub memory_runtime :
    Pydantic
    → AgentContext
    → (complete : List ChatMessage → ModelStream) (dumps_error : Text → Text)
    → Runtime World ToolArgs ToolResult
memory_runtime py ctx complete dumps_error = record {
  tools_by_name = tool_by_name py ctx;
  complete = complete;
  dumps_error = dumps_error;
}

-- The table is well formed, and another user has in it what they had before.
record Kept (p : Platform) (v : ℕ) (before w : World) : Type 0 where
  table : IsTable p w.memories
  others : rows_of v w.memories ≡ rows_of v before.memories

module _ (py : Pydantic) (ctx : AgentContext) (v : ℕ) (n : v ≢ ctx.user_id) (before : World) where
  abbrev P : World → Type 0
  P w = Kept ctx.platform v before w

  detail-world : (r : Result Memory × World) → (detail py ctx r).1 ≡ r.1
  unfolding detail
  detail-world (ok row, w) = refl
  detail-world (err e, w) = refl

  perform-keeps :
      (r : Request) (w : World)
      → ctx.user_id ≡ request_user r
      → P w
      → P (perform ctx.platform ctx.memory_client (ctx.now w) (ctx.new_id w) r w)
  perform-keeps r w e h = record {
    table = perform-IsTable ctx.platform ctx.memory_client (ctx.now w) (ctx.new_id w) r w h.table;
    others =
        perform-others ctx.platform ctx.memory_client (ctx.now w) (ctx.new_id w) r v w
          (λ same. n (same ∙ sym e)) h.table
        ∙ h.others;
  }

  detail-keeps : (r : Result Memory × World) → P r.1 → P (detail py ctx r).1
  detail-keeps r h = rw (detail-world r) h

  run_create-keeps :
      (a : ManageMemoryArgs) (text : Option Text) (event_date : Option ℕ) (event_tz : Option Text)
      (w : World)
      → P w
      → P (run_create py ctx a text event_date event_tz w).1
  unfolding run_create perform
  run_create-keeps a (some text) (some event_date) (some event_tz) w h =
      detail-keeps _
        (perform-keeps (create (create_args ctx.user_id a text event_date event_tz)) w refl h)
  run_create-keeps a none event_date event_tz w h = h
  run_create-keeps a (some text) none event_tz w h = h
  run_create-keeps a (some text) (some event_date) none w h = h

  run_update-keeps :
      (a : ManageMemoryArgs) (memory_id : Option ℕ) (w : World)
      → P w
      → P (run_update py ctx a memory_id w).1
  unfolding run_update perform
  run_update-keeps a none w h = h
  run_update-keeps a (some memory_id) w h =
      detail-keeps _ (perform-keeps (update ctx.user_id memory_id (unset_unprovided a)) w refl h)

  run_action-keeps :
      (a : ManageMemoryArgs) (action : Action) (w : World)
      → P w
      → P (run_action py ctx a action w).1
  unfolding run_action
  run_action-keeps a Arguments.create w h = run_create-keeps a a.text a.event_date a.event_tz w h
  run_action-keeps a Arguments.update w h = run_update-keeps a a.memory_id w h

  run_manage-keeps : (args : ToolArgs) (w : World) → P w → P (run_manage py ctx args w).1
  unfolding run_manage
  run_manage-keeps (search_args a) w h = h
  run_manage-keeps (manage_args a) w h = run_action-keeps a a.action w h

  run_search-keeps : (args : ToolArgs) (w : World) → P w → P (run_search py ctx args w).1
  unfolding run_search perform
  run_search-keeps (manage_args a) w h = h
  run_search-keeps (search_args a) w h = perform-keeps (search ctx.user_id a.q a.limit) w refl h

  -- The tool there is, if there is one, keeps the property.
  abbrev Keeps : Option (Tool World ToolArgs ToolResult) → Type 0
  Keeps none = Unit
  Keeps (some tool) = (id : Text) (args : ToolArgs) (w : World) → P w → P (tool.run id args w).1

  tool_by_name-Keeps : (name : Text) → Keeps (tool_by_name py ctx name)
  unfolding tool_by_name search_memories_tool manage_memory_tool
  tool_by_name-Keeps name = elim (Bool-cases (text_eq name (codes "search_memories"))) [
    | inl e ↦ rw e (λ id args w h. run_search-keeps args w h)
    | inr e ↦ elim (Bool-cases (text_eq name (codes "manage_memory"))) [
      | inl e' ↦ rw (e, e') (λ id args w h. run_manage-keeps args w h)
      | inr e' ↦ rw (e, e') tt
    ]
  ]

  tools-keep :
      (complete : List ChatMessage → ModelStream) (dumps_error : Text → Text)
      → ToolsKeep (memory_runtime py ctx complete dumps_error) P
  tools-keep complete dumps_error name tool e = rw e at (tool_by_name-Keeps name)

-- A run of the agent from a well-formed table, whatever the model answers and whichever calls it asks
-- for, leaves the table well formed, and leaves the rows of every user but the one it runs for as
-- they were.
pub run_agent_stream-memories :
    (py : Pydantic) (ctx : AgentContext) (complete : List ChatMessage → ModelStream)
    (dumps_error : Text → Text) (user_input : Text) (prompt : Text ⊎ Text)
    (history : List HistoryTurn) (v : ℕ) (w : World)
    → v ≢ ctx.user_id
    → IsTable ctx.platform w.memories
    → IsTable ctx.platform
        (run_agent_stream
          (memory_runtime py ctx complete dumps_error)
          user_input
          prompt
          history
          w).state.store.memories
      × (rows_of v
            (run_agent_stream
              (memory_runtime py ctx complete dumps_error)
              user_input
              prompt
              history
              w).state.store.memories
          ≡ rows_of v w.memories)
run_agent_stream-memories py ctx complete dumps_error user_input prompt history v w n t =
    let rt : Runtime World ToolArgs ToolResult = memory_runtime py ctx complete dumps_error in
    let k : Kept ctx.platform v w (run_agent_stream rt user_input prompt history w).state.store =
      run_agent_stream-keeps rt (λ w'. Kept ctx.platform v w w')
        (tools-keep py ctx v n w complete dumps_error) user_input prompt history w
        (record { table = t; others = refl }) in
    (k.table, k.others)
