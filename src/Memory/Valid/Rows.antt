-- ===== src/Memory/Valid/Rows.antt =====
-- What holds of each row of `memories`, and of the table.
use me.Base.{
  ◌≡◌, Bool, true, false, some, List, [], ◌∷◌, arith, is_none, is_some, is_empty, find, inl, inr,
  Bool-cases,
}
use me.Text.{strip}
use me.Platform.{Platform}
use me.Errors.{ok}
use me.Helpers.{canonical_hash, validate_tz, validate_location_pair}
use me.Memory.{Memory, synced, pending_delete}
use me.Memory.Table.{same_id, put_row}
use me.Memory.Table.Unique.{Unique, SameKey, any-SameKey, any-Unique, put_row-Unique}

pub record IsRow (p : Platform) (r : Memory) : Type 0 where
  pub text_stripped : strip r.text ≡ r.text
  pub text_filled : is_empty r.text ≡ false
  pub hashed : r.content_hash ≡ canonical_hash p r.text
  pub zoned : validate_tz p r.event_tz ≡ ok r.event_tz
  pub located : validate_location_pair r.location_lat r.location_lng ≡ ok tt
  -- a synced row has its document, unless it is deleted, and no error
  pub synced_id : r.external_status ≡ synced → is_some r.external_id ≡ true
  pub synced_clean : r.external_status ≡ synced → is_none r.external_error ≡ true
  -- only a deleted row with a document waits for its remote delete
  pub pending_deleted : r.external_status ≡ pending_delete → is_some r.deleted_at ≡ true
  pub pending_id : r.external_status ≡ pending_delete → is_some r.external_id ≡ true

abbrev pub AllRows : Platform → List Memory → Type 0
AllRows p [] = Unit
AllRows p (r ∷ rows) = IsRow p r × AllRows p rows

pub record IsTable (p : Platform) (rows : List Memory) : Type 0 where
  pub each_row : AllRows p rows
  pub unique : Unique rows

pub AllRows-find :
    (p : Platform) (q : Memory → Bool) (rows : List Memory) (r : Memory)
    → AllRows p rows
    → find q rows ≡ some r
    → IsRow p r
unfolding find
AllRows-find p q [] r h e = absurd (ground arith)
AllRows-find p q (x ∷ rows) r h e = elim (Bool-cases (q x)) [
  | inl t ↦ let same : x ≡ r = ground arith in rw same at h.0
  | inr f ↦ AllRows-find p q rows r h.1 (ground arith)
]

pub AllRows-put_row :
    (p : Platform) (r : Memory) (rows : List Memory)
    → AllRows p rows
    → IsRow p r
    → AllRows p (put_row r rows)
unfolding put_row
AllRows-put_row p r [] h k = tt
AllRows-put_row p r (x ∷ rows) h k = elim (Bool-cases (same_id x r)) [
  | inl t ↦ rw t (k, h.1)
  | inr f ↦ rw f (h.0, AllRows-put_row p r rows h.1 k)
]

-- Writing a well-formed row over one that claimed the same keys keeps the table well formed.
pub IsTable-put_row :
    (p : Platform) (q : Memory → Bool) (old new : Memory) (rows : List Memory)
    → IsTable p rows
    → find q rows ≡ some old
    → SameKey old new
    → IsRow p new
    → IsTable p (put_row new rows)
IsTable-put_row p q old new rows t e k h = record {
  each_row = AllRows-put_row p new rows t.each_row h;
  unique =
      put_row-Unique new rows t.unique
        (any-SameKey old new rows k (any-Unique q rows old t.unique e));
}
