-- ===== src/Cursor/Client.antt =====
-- A client that sends each cursor back as it came.
use me.Base.{
  ℕ, zero, suc, ◌≡◌, refl, ap, ◌∙◌, Bool, true, false, Option, none, some, List, [], ◌++◌, Text,
}
use me.Paging.{Key, get_page}
use me.Paging.Walk.{follow, walk}

-- The next cursor, as the encoder writes it.
abbrev pub encode_next : (Key → Text) → Option Key → Option Text
encode_next encode none = none
encode_next encode (some k) = some (encode k)

abbrev pub encode_page : {A : Type 0} → (Key → Text) → List A × Option Key → List A × Option Text
encode_page encode (items, next) = (items, encode_next encode next)

module _ {A : Type 0} (ask : Option Text → Option (List A × Option Text)) where
  append_next : (Option Text → List A) → Option (List A × Option Text) → List A
  append_next next none = []
  append_next next (some (items, none)) = items
  append_next next (some (items, some c)) = items ++ next (some c)

  -- All the items, page after page; `none` is a refused request, which ends the walk.
  unfoldable pub collect : (fuel : ℕ) → Option Text → List A
  unfolding append_next
  collect zero cursor = []
  collect (suc fuel) cursor = append_next (λ c. collect fuel c) (ask cursor)

  answered_next : (Option Text → Bool) → Option (List A × Option Text) → Bool
  answered_next next none = false
  answered_next next (some (items, none)) = true
  answered_next next (some (items, some c)) = next (some c)

  -- No request of this client is refused.
  unfoldable pub all_answered : (fuel : ℕ) → Option Text → Bool
  unfolding answered_next
  all_answered zero cursor = true
  all_answered (suc fuel) cursor = answered_next (λ c. all_answered fuel c) (ask cursor)

module _ {A : Type 0} (ask : Option Text → Option (List A × Option Text)) (encode : Key → Text)
    (key : A → Key) (before : Key → Key → Bool) (p : A → Bool) (limit : ℕ) (rows : List A) where
  same_step :
      (f : Option Text → List A) (g : Option Key → List A) (page : List A × Option Key)
      → ((k : Key) → f (some (encode k)) ≡ g (some k))
      → append_next ask f (some (encode_page encode page)) ≡ follow key before g page
  unfolding append_next follow
  same_step f g (items, none) h = refl
  same_step f g (items, some k) h = ap (λ l. items ++ l) (h k)

  -- If every request is answered by the page behind its cursor, the client walks over the pages.
  pub collect-walk :
      ((k : Option Key)
        → ask (encode_next encode k)
          ≡ some (encode_page encode (get_page key before p k limit rows)))
      → (fuel : ℕ) (k : Option Key)
      → collect ask fuel (encode_next encode k) ≡ walk key before fuel p k limit rows
  unfolding collect walk
  collect-walk answers zero k = refl
  collect-walk answers (suc fuel) k =
      ap (append_next ask (collect ask fuel)) (answers k)
      ∙ same_step (collect ask fuel) (λ k'. walk key before fuel p k' limit rows)
          (get_page key before p k limit rows) (λ k'. collect-walk answers fuel (some k'))

  page_answered :
      (next : Option Text → Bool) (page : List A × Option Key)
      → ((k : Key) → next (some (encode k)) ≡ true)
      → answered_next ask next (some (encode_page encode page)) ≡ true
  unfolding answered_next
  page_answered next (items, none) h = refl
  page_answered next (items, some k) h = h k

  pub walk_answered :
      ((k : Option Key)
        → ask (encode_next encode k)
          ≡ some (encode_page encode (get_page key before p k limit rows)))
      → (fuel : ℕ) (k : Option Key) → all_answered ask fuel (encode_next encode k) ≡ true
  unfolding all_answered
  walk_answered answers zero k = refl
  walk_answered answers (suc fuel) k =
      ap (answered_next ask (all_answered ask fuel)) (answers k)
      ∙ page_answered (all_answered ask fuel) (get_page key before p k limit rows)
          (λ k'. walk_answered answers fuel (some k'))
