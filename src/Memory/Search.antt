-- ===== src/Memory/Search.antt =====
-- `search_memories` and `_search_local_fallback` of app/services/memory.py.
use me.Base.{
  is_empty, not, ℕ, Bool, false, Option, none, some, List, [], ◌∷◌, map, ◌&&◌, ◌||◌, ◌==◌, ltb, leb,
  if◌then◌else◌, Text, text_eq, is_none, any, select, take,
}
use me.Platform.{Platform}
use me.Helpers.{Float}
use me.MemoryClient.{MemoryClient, Reply, reply, raised, SearchHit, search_call}
use me.Memory.{Memory, World, MemorySource, supermemory, local}
use me.Memory.Remote.{container_tag}

abbrev pub max_page_limit : ℕ
max_page_limit = 200

-- `max(1, min(limit, MAX_PAGE_LIMIT))`
unfoldable pub clamp_limit : ℕ → ℕ
clamp_limit limit =
    if ltb limit 1 then 1 else if ltb max_page_limit limit then max_page_limit else limit

pub record SearchResult : Type 0 where
  pub hits : List (Memory × Option Float)
  pub source : MemorySource

-- `Memory.id.in_(uuid_doc_ids)`: the ids among the documents that parse as UUIDs.
is_id_of : Platform → ℕ → SearchHit → Bool
is_id_of p id h = elim (p.parse_uuid h.doc_id) [ none ↦ false | some u ↦ u == id ]

-- `Memory.external_id.in_(doc_ids)`
is_external_id_of : Option Text → SearchHit → Bool
is_external_id_of none h = false
is_external_id_of (some x) h = text_eq x h.doc_id

unfoldable pub is_live_of : ℕ → Memory → Bool
is_live_of user_id r = r.user_id == user_id && is_none r.deleted_at

unfoldable pub is_hydrated : Platform → ℕ → List SearchHit → Memory → Bool
unfolding is_id_of is_external_id_of is_live_of
is_hydrated p user_id hits r =
    (any (is_id_of p r.id) hits || any (is_external_id_of r.external_id) hits)
    && is_live_of user_id r

-- `if r.external_id: by_doc_id[r.external_id] = r`
is_external_key : Text → Option Text → Bool
is_external_key doc_id none = false
is_external_key doc_id (some x) = not (is_empty x) && text_eq x doc_id

-- The keys under which the loop over `rows` enters a row into `by_doc_id`.
unfoldable pub is_entered_as : Platform → Text → Memory → Bool
unfolding is_external_key
is_entered_as p doc_id r = text_eq (p.str_uuid r.id) doc_id || is_external_key doc_id r.external_id

-- `by_doc_id.get(doc_id)`: a later row overwrites an earlier one.
unfoldable pub by_doc_id : Platform → List Memory → Text → Option Memory
unfolding is_entered_as
by_doc_id p [] doc_id = none
by_doc_id p (r ∷ rows) doc_id = elim (by_doc_id p rows doc_id) [
  | some later ↦ some later
  | none ↦ if is_entered_as p doc_id r then some r else none
]

unfoldable pub hydrate : Platform → List Memory → List SearchHit → List (Memory × Option Float)
unfolding by_doc_id
hydrate p rows [] = []
hydrate p rows (h ∷ hits) = elim (by_doc_id p rows h.doc_id) [
  | none ↦ hydrate p rows hits
  | some row ↦ (row, some h.similarity) ∷ hydrate p rows hits
]

-- `ORDER BY ts_rank_cd(…) DESC`
unfoldable pub insert_by_rank : Platform → Text → Memory → List Memory → List Memory
insert_by_rank p q r [] = r ∷ []
insert_by_rank p q r (x ∷ rows) =
    if leb (p.fts_rank x.text q) (p.fts_rank r.text q)
    then r ∷ x ∷ rows
    else x ∷ insert_by_rank p q r rows

unfoldable pub order_by_rank : Platform → Text → List Memory → List Memory
unfolding insert_by_rank
order_by_rank p q [] = []
order_by_rank p q (r ∷ rows) = insert_by_rank p q r (order_by_rank p q rows)

abbrev pub is_local_match : Platform → ℕ → Text → Memory → Bool
is_local_match p user_id q r = is_live_of user_id r && p.fts_match r.text q

abbrev pub without_score : Memory → Memory × Option Float
without_score r = (r, none)

unfoldable pub search_local_fallback :
    Platform → (user_id : ℕ) (q : Text) (limit : ℕ) → World → SearchResult
unfolding order_by_rank is_live_of
search_local_fallback p user_id q limit w = record {
  hits =
      map without_score
        (take limit (order_by_rank p q (select (is_local_match p user_id q) w.memories)));
  source = local;
}

unfoldable pub search_reply :
    Platform → (user_id : ℕ) (q : Text) (limit : ℕ) → World → Reply (List SearchHit) → SearchResult
unfolding search_local_fallback hydrate is_hydrated
search_reply p user_id q limit w (raised e) = search_local_fallback p user_id q limit w
search_reply p user_id q limit w (reply []) = record { hits = []; source = supermemory }
search_reply p user_id q limit w (reply (h ∷ hits)) = record {
  hits = hydrate p (select (is_hydrated p user_id (h ∷ hits)) w.memories) (h ∷ hits);
  source = supermemory;
}

unfoldable pub search_memories :
    Platform → MemoryClient → (user_id : ℕ) (q : Text) (limit : ℕ) → World → SearchResult × World
unfolding search_reply clamp_limit
search_memories p client user_id q limit w =
    let limit' = clamp_limit limit in
    let tag = container_tag user_id in
    (
      search_reply p user_id q limit' w (client.search q tag limit'),
      record w { calls = search_call q tag limit' ∷ w.calls },
    )
