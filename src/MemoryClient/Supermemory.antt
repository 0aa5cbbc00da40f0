-- ===== src/MemoryClient/Supermemory.antt =====
-- `SupermemoryClient` and `_translate` of app/services/memory_client.py. The SDK is a parameter: a
-- method of it returns, or raises one of its exceptions. Logging and the omitted optional
-- arguments are left out.
use me.Base.{ℕ, ◌&&◌, Option, some, none, List, [], ◌∷◌, leb, ltb, if◌then◌else◌, Text, is_empty}
use me.Helpers.{Float}
use me.MemoryClient.{
  MemoryClientError, auth_error, not_found_error, rate_limit_error, permanent_error,
  transient_error, Reply, reply, raised, AddResult, SearchHit, Metadata, MemoryClient,
}

-- The exceptions of the SDK that `_translate` tells apart; `api_status_error` holds the status code
-- of every other answer with an error status.
pub data SdkError : Type 0 where
  authentication_error permission_denied_error sdk_not_found_error sdk_rate_limit_error : SdkError
  api_status_error : ℕ → SdkError
  api_connection_error api_timeout_error api_error other_exception : SdkError

pub data Outcome {ℓ} (A : Type ℓ) : Type ℓ where
  returned : A → Outcome A
  failed : SdkError → Outcome A

-- A result of a search: `document_id` may be missing.
pub record SdkHit : Type 0 where
  pub document_id : Option Text
  pub score : Float

pub record Sdk : Type 0 where
  pub documents_add :
      (content : Text) (container_tags : List Text) (custom_id : Text)
      → Metadata
      → Outcome AddResult
  pub documents_update : (doc_id : Text) (content : Option Text) → Metadata → Outcome (Unit {0})
  pub documents_delete : (doc_id : Text) → Outcome (Unit {0})
  pub search_documents : (q : Text) (container_tags : List Text) (limit : ℕ) → Outcome (List SdkHit)

pub translate : SdkError → MemoryClientError
translate authentication_error = auth_error
translate permission_denied_error = auth_error
translate sdk_not_found_error = not_found_error
translate sdk_rate_limit_error = rate_limit_error
translate (api_status_error code) =
    if leb 400 code && ltb code 500 then permanent_error else transient_error
translate _ = transient_error

pub or_translate {ℓ} : {A : Type ℓ} → Outcome A → Reply A
unfolding translate
or_translate (returned a) = reply a
or_translate (failed e) = raised (translate e)

-- A document that is not there counts as deleted.
pub delete_outcome : Outcome (Unit {0}) → Reply (Unit {0})
unfolding or_translate
delete_outcome (failed sdk_not_found_error) = reply tt
delete_outcome (returned a) = reply a
delete_outcome (failed e) = or_translate (failed e)

-- `[SearchHit(...) for r in resp.results if r.document_id]`
hit_of : SdkHit → List SearchHit → List SearchHit
hit_of r rest = elim r.document_id [
  | none ↦ rest
  | some d ↦ if is_empty d then rest else record { doc_id = d; similarity = r.score } ∷ rest
]

pub search_hits : List SdkHit → List SearchHit
unfolding hit_of
search_hits [] = []
search_hits (r ∷ results) = hit_of r (search_hits results)

search_outcome : Outcome (List SdkHit) → Reply (List SearchHit)
unfolding search_hits or_translate
search_outcome (returned results) = reply (search_hits results)
search_outcome (failed e) = raised (translate e)

-- The adapter, over the SDK and `str(uuid)`.
unfoldable pub supermemory_client : Sdk → (ℕ → Text) → MemoryClient
unfolding or_translate delete_outcome search_outcome
supermemory_client sdk str_uuid = record {
  add = λ custom_id content tags metadata.
      or_translate (sdk.documents_add content tags (str_uuid custom_id) metadata);
  patch = λ doc_id content metadata. or_translate (sdk.documents_update doc_id content metadata);
  delete = λ doc_id. delete_outcome (sdk.documents_delete doc_id);
  search = λ q tag limit. search_outcome (sdk.search_documents q (tag ∷ []) limit);
}
