-- ===== src/Auth/Login.antt =====
-- The handlers of app/api/auth.py: `login` and `verify_passphrase`. Both guard the test of the
-- passphrase by the throttle in the same way.
use me.Base.{
  ℕ, ◌-◌, ◌/◌, Bool, true, false, Option, none, some, List, ltb, if◌then◌else◌, Text, codes,
}
use me.Auth.Throttle.{Settings, AuthThrottle, get_lock_expiry, record_failure, clear_failures}
use me.Auth.Security.{
  User, Crypto, Request, verify_passphrase, days, mint_access_token, client_ip, first_user,
  current_user,
}

pub data Response : Type 0 where
  -- 200 with the token and its expiry, and 204
  access_granted : Text → ℕ → Response
  no_content : Response
  -- 401, and 429 with the seconds of `Retry-After`
  invalid_credentials : Response
  too_many_attempts : ℕ → Response

-- `max(1, int((locked_until - now).total_seconds()))`
unfoldable pub retry_after : (locked_until now : ℕ) → ℕ
retry_after locked_until now =
    let wait = (locked_until - now) / 1000000 in if ltb wait 1 then 1 else wait

refusal : ℕ → Option ℕ → Response
refusal now none = invalid_credentials
refusal now (some until) = too_many_attempts (retry_after until now)

-- What follows the test of the lock: `passes` is the result of the test of the passphrase.
unfoldable pub checked_attempt :
    Settings
    → (action ip : Text) (now : ℕ) (passes : Bool) (granted : Response) → List AuthThrottle
    → Response × List AuthThrottle
unfolding refusal retry_after
checked_attempt settings action ip now true granted rows = (granted, clear_failures action ip rows)
checked_attempt settings action ip now false granted rows =
    let (locked_until, rows') = record_failure action ip now settings rows in
    (refusal now locked_until, rows')

unfoldable pub attempt :
    Settings
    → (action ip : Text) (now : ℕ) (passes : Bool) (granted : Response) → List AuthThrottle
    → Response × List AuthThrottle
unfolding checked_attempt
attempt settings action ip now passes granted rows = elim (get_lock_expiry action ip now rows) [
  | some until ↦ (too_many_attempts (retry_after until now), rows)
  | none ↦ checked_attempt settings action ip now passes granted rows
]

unfoldable pub login_passes : Crypto → Text → Option User → Bool
login_passes c passphrase none = false
login_passes c passphrase (some user) = verify_passphrase c passphrase user.passphrase_hash

pub login_response : Crypto → Settings → ℕ → Option User → Response
login_response c settings now none = invalid_credentials
login_response c settings now (some user) =
    let (token, expires_at) = mint_access_token c now user.id (days settings.jwt_expires_days) in
    access_granted token expires_at

unfoldable pub login :
    Crypto
    → Settings
    → (now : ℕ) → List User
    → Request
    → (passphrase : Text) → List AuthThrottle
    → Response × List AuthThrottle
unfolding attempt login_passes login_response
login c settings now users request passphrase rows =
    attempt settings (codes "login") (client_ip request settings) now
      (login_passes c passphrase (first_user users))
      (login_response c settings now (first_user users)) rows

verify_as :
    Crypto
    → Settings
    → ℕ
    → Request
    → Text
    → List AuthThrottle
    → Option User
    → Response × List AuthThrottle
verify_as c settings now request passphrase rows none = (invalid_credentials, rows)
verify_as c settings now request passphrase rows (some user) =
    attempt settings (codes "verify_passphrase") (client_ip request settings) now
      (verify_passphrase c passphrase user.passphrase_hash) no_content rows

-- `POST /auth/verify-passphrase`, with the dependency `current_user`.
unfoldable pub verify_handler :
    Crypto
    → Settings
    → (now : ℕ) → List User
    → Request
    → (passphrase : Text) → List AuthThrottle
    → Response × List AuthThrottle
unfolding attempt verify_as
verify_handler c settings now users request passphrase rows =
    verify_as c settings now request passphrase rows (current_user c now users request)
