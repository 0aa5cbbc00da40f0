-- ===== src/Platform.antt =====
-- What the memory service uses of code that is not in the repository: Unicode tables, SHA-256,
-- the time zone database, and PostgreSQL's full text search.
use me.Base.{ℕ, Bool, Option, List, Text}

pub record Platform : Type 0 where
  -- `unicodedata.normalize("NFC", s)` and `s.lower()`
  pub nfc : Text → Text
  pub lower : Text → Text
  -- `hashlib.sha256(data).digest()`
  pub sha256 : List ℕ → List ℕ
  -- whether `ZoneInfo(name)` succeeds
  pub zone_info : Text → Bool
  -- `UUID(s)`, with `none` for a `ValueError`, and `str(uuid)`
  pub parse_uuid : Text → Option ℕ
  pub str_uuid : ℕ → Text
  -- `to_tsvector('simple', text) @@ plainto_tsquery('simple', q)`, and the order of `ts_rank_cd`
  pub fts_match : Text → Text → Bool
  pub fts_rank : Text → Text → ℕ
