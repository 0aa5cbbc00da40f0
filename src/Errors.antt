-- ===== src/Errors.antt =====
-- app/services/_memory_errors.py, and the exceptions of the database that pass through the
-- services. A function that may raise returns a `Result`.

use me.Base.{◌≡◌, refl, ◌⊎◌, inl, inr}

-- The message of a `MemoryValidationError`.
pub data Reason : Type 0 where
  empty_text empty_tz unknown_tz location_unpaired lat_out_of_range lng_out_of_range : Reason
  malformed_cursor unsupported_cursor_version cursor_missing_fields cursor_field_not_parsed : Reason

-- The constraint that an `IntegrityError` names.
pub data Constraint : Type 0 where
  ux_user_content_hash pk ck_content_hash_len ck_location : Constraint
  ux_messages_parent ck_messages_events_assistant_only ck_messages_assistant_has_parent : Constraint
  ck_messages_location_pair_set fk_session fk_parent_message : Constraint

pub data Error : Type 0 where
  memory_not_found : Error
  memory_duplicate : Error
  memory_validation_error : Reason → Error
  memory_idempotency_reused : Error
  -- `sqlalchemy.exc.IntegrityError`, and `NoResultFound` of `scalar_one`
  integrity_error : Constraint → Error
  no_result_found : Error
  -- `SessionNotFound`, and `ValueError("malformed cursor")` of app/services/sessions.py
  session_not_found : Error
  value_error : Error
  -- `RecursionError` of `json.loads`, which the services do not take
  recursion_error : Error

pub data Result {ℓ} (T : Type ℓ) : Type ℓ where
  err : Error → Result T
  ok : T → Result T

infixl 5 ◌>>=◌
abbrev pub ◌>>=◌ {ℓ κ} : {S : Type ℓ} {T : Type κ} → Result S → (S → Result T) → Result T
err e >>= next = err e
ok s >>= next = next s

infixl 5 ◌>>◌
abbrev pub ◌>>◌ {ℓ} : {T : Type ℓ} → Result (Unit {0}) → Result T → Result T
check >> rest = check >>= λ _. rest

pub Result-cases {ℓ} :
    {A : Type ℓ} (r : Result A) → ((a : A) × (r ≡ ok a)) ⊎ ((e : Error) × (r ≡ err e))
Result-cases (ok a) = inl (a, refl)
Result-cases (err e) = inr (e, refl)
