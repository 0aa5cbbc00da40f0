-- ===== src/Memory/History.antt =====
-- The requests that change memories, in any order, from any user, with any replies of the backend.
use me.Base.{ℕ, [], Text}
use me.Platform.{Platform}
use me.MemoryClient.{MemoryClient}
use me.Memory.{World}
use me.Memory.Create.{CreateArgs, create_memory}
use me.Memory.Update.{Patch, update_memory}
use me.Memory.Delete.{delete_memory}
use me.Memory.Sync.{sync_memory}
use me.Memory.Search.{search_memories}
use me.Memory.Valid.{IsTable}
use me.Memory.Valid.Create.{create_memory-IsTable}
use me.Memory.Valid.Update.{update_memory-IsTable}
use me.Memory.Valid.Delete.{delete_memory-IsTable, sync_memory-IsTable}

pub data Request : Type 0 where
  create : CreateArgs → Request
  update : (user_id memory_id : ℕ) → Patch → Request
  delete sync : (user_id memory_id : ℕ) → Request
  search : (user_id : ℕ) (q : Text) (limit : ℕ) → Request

unfoldable pub perform : Platform → MemoryClient → (now new_id : ℕ) → Request → World → World
perform p client now new_id (create a) w = (create_memory p client now new_id a w).1
perform p client now new_id (update u m patch) w = (update_memory p client now u m patch w).1
perform p client now new_id (delete u m) w = (delete_memory client now u m w).1
perform p client now new_id (sync u m) w = (sync_memory client now u m w).1
perform p client now new_id (search u q limit) w = (search_memories p client u q limit w).1

-- The backend's replies, the clock and the drawn ids are chosen by the environment at each step.
pub data Step (p : Platform) : World → World → Type 0 where
  act :
      (client : MemoryClient) (now new_id : ℕ) (r : Request) (w : World)
      → Step p w (perform p client now new_id r w)

pub data Reach (p : Platform) (start : World) : World → Type 0 where
  here : Reach p start start
  next : {w w' : World} → Reach p start w → Step p w w' → Reach p start w'

pub perform-IsTable :
    (p : Platform) (client : MemoryClient) (now new_id : ℕ) (r : Request) (w : World)
    → IsTable p w.memories
    → IsTable p (perform p client now new_id r w).memories
unfolding perform search_memories
perform-IsTable p client now new_id (create a) w t = create_memory-IsTable p client now new_id a w t
perform-IsTable p client now new_id (update u m patch) w t =
    update_memory-IsTable p client now patch u m w t
perform-IsTable p client now new_id (delete u m) w t = delete_memory-IsTable p client now u m w t
perform-IsTable p client now new_id (sync u m) w t = sync_memory-IsTable p client now u m w t
perform-IsTable p client now new_id (search u q limit) w t = t

Step-IsTable :
    {p : Platform} {w w' : World} → Step p w w' → IsTable p w.memories → IsTable p w'.memories
Step-IsTable {p} (act client now new_id r w) t = perform-IsTable p client now new_id r w t

-- Every state that requests can reach from a well-formed one is well formed.
pub Reach-IsTable :
    {p : Platform} {w w' : World} → IsTable p w.memories → Reach p w w' → IsTable p w'.memories
Reach-IsTable t here = t
Reach-IsTable t (next r s) = Step-IsTable s (Reach-IsTable t r)

abbrev pub empty : World
empty = record { memories = []; calls = [] }

pub empty-IsTable : (p : Platform) → IsTable p empty.memories
empty-IsTable p = record { each_row = tt; unique = tt }
