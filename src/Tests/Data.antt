-- ===== src/Tests/Data.antt =====
-- A platform, two backends and a few requests, for the tests of the memory service.
use me.Base.{ℕ, Option, none, some, [], ◌∷◌, ◌++◌, take, true, Text, codes, text_eq}
use me.Platform.{Platform}
use me.MemoryClient.{MemoryClient, reply, raised, transient_error}
use me.Cursor.{replicate}
use me.Memory.{World}
use me.Memory.Create.{CreateArgs, create_memory}
use me.Memory.Update.{Patch, set, unset}
use me.Memory.History.{empty}

abbrev read_number : Text → Option ℕ
read_number [] = none
read_number (n ∷ t) = some n

abbrev pub platform : Platform
platform = record {
  nfc = λ s. s;
  lower = λ s. s;
  sha256 = λ data_bytes. take 32 (data_bytes ++ replicate 32 0);
  zone_info = λ name. text_eq name (codes "UTC");
  parse_uuid = read_number;
  str_uuid = λ id. id ∷ [];
  fts_match = λ text q. true;
  fts_rank = λ text q. 0;
}

-- A backend that takes everything, and one that is down.
abbrev pub accepting : MemoryClient
accepting = record {
  add =
      λ id content tags envelope. reply (record { doc_id = codes "doc-1"; status = codes "done" });
  patch = λ doc_id content envelope. reply tt;
  delete = λ doc_id. reply tt;
  search = λ q tag limit. reply [];
}

abbrev pub failing : MemoryClient
failing = record {
  add = λ id content tags envelope. raised transient_error;
  patch = λ doc_id content envelope. raised transient_error;
  delete = λ doc_id. raised transient_error;
  search = λ q tag limit. raised transient_error;
}

abbrev pub coffee : CreateArgs
coffee = record {
  user_id = 3;
  text = codes " likes coffee ";
  event_date = 738000;
  event_tz = codes "UTC";
  event_time = none;
  location_lat = none;
  location_lng = none;
  location_label = none;
  idempotency_id = none;
}

abbrev pub tea : Patch
tea = record {
  text = set (codes "likes tea");
  event_date = unset;
  event_time = unset;
  event_tz = unset;
  location_lat = unset;
  location_lng = unset;
  location_label = unset;
}

-- The table with one memory, stored while the backend was down.
abbrev pub one_memory : World
one_memory = (create_memory platform failing 1000 7 coffee empty).1
