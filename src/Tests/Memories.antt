-- ===== src/Tests/Memories.antt =====
-- The theorems on the memory service at concrete inputs.
use me.Base.{ℕ, length, ◌≡◌, ◌≢◌, refl, ◌∷◌, none, some, codes, arith}
use me.Errors.{ok, err, memory_not_found}
use me.Helpers.{canonical_hash}
use me.MemoryClient.{transient_error}
use me.Memory.{Memory, World, unsynced}
use me.Memory.Create.{create_memory}
use me.Memory.Update.{update_memory, get_memory}
use me.Memory.Delete.{delete_memory}
use me.Memory.Sync.{sync_memory}
use me.Memory.Remote.{send_add_call}
use me.Memory.Valid.{IsTable}
use me.Memory.Valid.Create.{create_memory-IsTable}
use me.Memory.History.{
  create, update, delete, perform, act, here, next, empty, empty-IsTable, Reach-IsTable,
}
use me.Memory.Owner.{rows_of}
use me.Memory.Isolation.{perform-others}
use me.Memory.Retry.{create_memory_retry}
use me.Memory.Local.{
  SameLocally, local_rows, create_memory-local, update_memory-local, delete_memory-local,
}
use me.Memory.Removal.{delete_memory-hides, sync_memory_uploads_deleted}
use me.Memory.Table.{find_owned}
use me.Tests.Data.{platform, accepting, failing, coffee, tea, one_memory}

pub one_memory-IsTable : IsTable platform one_memory.memories
one_memory-IsTable =
    create_memory-IsTable platform failing 1000 7 coffee empty (empty-IsTable platform)

abbrev created : World
created = perform platform failing 1000 7 (create coffee) empty

abbrev updated : World
updated = perform platform accepting 1001 8 (update 3 7 tea) created

abbrev removed : World
removed = perform platform accepting 1002 9 (delete 3 7) updated

Reach-IsTable_example : IsTable platform removed.memories
Reach-IsTable_example =
    Reach-IsTable {p = platform} {w = empty} {w' = removed} (empty-IsTable platform) (
      next
        (next (next here (act failing 1000 7 (create coffee) empty))
          (act accepting 1001 8 (update 3 7 tea) created))
        (act accepting 1002 9 (delete 3 7) updated))

pub three_not_four : ◌≢◌ {A = ℕ} 4 3
three_not_four e = ground arith

perform-others_example :
    rows_of 4 (perform platform accepting 1001 8 (delete 3 7) one_memory).memories
    ≡ rows_of 4 one_memory.memories
perform-others_example =
    perform-others platform accepting 1001 8 (delete 3 7) 4 one_memory three_not_four
      one_memory-IsTable

abbrev pub stored_row : Memory
stored_row = record {
  id = 7;
  user_id = 3;
  text = codes "likes coffee";
  event_date = 738000;
  event_time = none;
  event_tz = codes "UTC";
  location_lat = none;
  location_lng = none;
  location_label = none;
  content_hash = canonical_hash platform (codes "likes coffee");
  external_id = none;
  external_status = unsynced;
  external_synced_at = none;
  external_error = some transient_error;
  created_at = 1000;
  deleted_at = none;
}

create_coffee : (create_memory platform failing 1000 7 coffee empty).0 ≡ ok stored_row
unfolding create_memory me.Memory.Create.create_checks me.Text.strip me.Helpers.validate_tz
    me.Base.text_eq me.Helpers.validate_location_pair me.Memory.Create.create_checked
    me.Memory.Create.idempotent_hit me.Memory.Create.create_insert
    me.Memory.Table.insert_on_conflict me.Memory.Create.new_row me.Helpers.canonical_hash
    me.Text.utf8 me.Base.any me.Memory.Remote.send_to_supermemory_add
create_coffee = refl

coffee_found : find_owned 3 7 one_memory.memories ≡ some stored_row
unfolding create_memory me.Memory.Create.create_checks me.Text.strip me.Helpers.validate_tz
    me.Base.text_eq me.Helpers.validate_location_pair me.Memory.Create.create_checked
    me.Memory.Create.idempotent_hit me.Memory.Create.create_insert
    me.Memory.Table.insert_on_conflict me.Memory.Create.new_row me.Helpers.canonical_hash
    me.Text.utf8 me.Base.find me.Base.any me.Memory.Table.put_row
    me.Memory.Remote.send_to_supermemory_add
coffee_found = refl

create_memory_retry_example :
    create_memory platform accepting 2000 8 coffee one_memory ≡ (ok stored_row, one_memory)
create_memory_retry_example =
    create_memory_retry platform failing accepting 1000 7 2000 8 coffee empty stored_row
      create_coffee

create_memory-local_example :
    SameLocally
      (create_memory platform failing 1000 7 coffee empty)
      (create_memory platform accepting 1000 7 coffee empty)
create_memory-local_example = create_memory-local failing accepting 1000 platform 7 coffee empty

update_memory-local_example :
    SameLocally
      (update_memory platform failing 1001 3 7 tea one_memory)
      (update_memory platform accepting 1001 3 7 tea one_memory)
update_memory-local_example = update_memory-local failing accepting 1001 platform 3 7 tea one_memory

delete_memory-local_example :
    ((delete_memory failing 1001 3 7 one_memory).0
      ≡ (delete_memory accepting 1001 3 7 one_memory).0)
    × (local_rows (delete_memory failing 1001 3 7 one_memory).1
        ≡ local_rows (delete_memory accepting 1001 3 7 one_memory).1)
delete_memory-local_example = delete_memory-local failing accepting 1001 3 7 one_memory

coffee_deleted : (delete_memory failing 1001 3 7 one_memory).0 ≡ ok tt
unfolding create_memory me.Memory.Create.create_checks me.Text.strip me.Helpers.validate_tz
    me.Base.text_eq me.Helpers.validate_location_pair me.Memory.Create.create_checked
    me.Memory.Create.idempotent_hit me.Memory.Create.create_insert
    me.Memory.Table.insert_on_conflict me.Memory.Create.new_row me.Helpers.canonical_hash
    me.Text.utf8 delete_memory me.Base.find me.Base.any me.Memory.Table.put_row
    me.Memory.Remote.send_to_supermemory_add
coffee_deleted = refl

pub length-one_memory : length one_memory.memories ≡ 1
unfolding create_memory me.Memory.Create.create_checks me.Text.strip me.Helpers.validate_tz
    me.Base.text_eq me.Helpers.validate_location_pair me.Memory.Create.create_checked
    me.Memory.Create.idempotent_hit me.Memory.Create.create_insert
    me.Memory.Table.insert_on_conflict me.Memory.Create.new_row me.Helpers.canonical_hash
    me.Text.utf8 me.Base.any me.Memory.Table.put_row me.Memory.Remote.send_to_supermemory_add
length-one_memory = refl

delete_memory-hides_example :
    (get_memory 3 7 (delete_memory failing 1001 3 7 one_memory).1 ≡ err memory_not_found)
    × (delete_memory accepting 1002 3 7 (delete_memory failing 1001 3 7 one_memory).1
        ≡ (ok tt, (delete_memory failing 1001 3 7 one_memory).1))
delete_memory-hides_example =
    delete_memory-hides platform failing 1001 3 7 one_memory accepting 1002 one_memory-IsTable
      coffee_deleted

sync_memory_uploads_deleted_example :
    (sync_memory accepting 1002 3 7 (delete_memory failing 1001 3 7 one_memory).1).1.calls
    ≡ send_add_call (record stored_row { deleted_at = some 1001 }) ∷ one_memory.calls
sync_memory_uploads_deleted_example =
    sync_memory_uploads_deleted platform failing accepting 1001 1002 3 7 one_memory stored_row
      one_memory-IsTable coffee_found refl refl refl
