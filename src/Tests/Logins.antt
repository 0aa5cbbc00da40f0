-- ===== src/Tests/Logins.antt =====
-- The theorems on the throttle at concrete inputs.
use me.Base.{
  ℕ, true, false, ◌≡◌, ◌≢◌, refl, ◌<◌, ◌≤◌, Option, none, some, ◌++◌, text_eq, List, [], ◌∷◌, arith,
  Text, codes,
}
use me.Auth.Throttle.{
  Settings, AuthThrottle, throttle_key, get_row, get_lock_expiry, record_failure,
}
use me.Auth.Login.{no_content, attempt, login, verify_handler}
use me.Auth.Security.{User, Crypto, Request, verify_passphrase, client_ip}
use me.Auth.Guesses.{wrong_tests, wrong_tests-le-failures}
use me.Auth.Separation.{
  throttle_key_injective, action_keys_differ, attempt-elsewhere, attempt-granted, handlers_apart,
}

abbrev settings : Settings
settings = record {
  jwt_expires_days = 30;
  auth_rate_limit_failures = 5;
  auth_rate_limit_window_seconds = 900;
  auth_rate_limit_lock_seconds = 900;
  trust_proxy_headers = false;
}

abbrev home : Text
home = codes "10.0.0.1"

abbrev one_failure : List AuthThrottle
one_failure = (record_failure (codes "login") home 1000 settings []).1

wrong_tests-le-failures_example :
    wrong_tests settings (codes "login") home no_content (1000 ∷ 1001 ∷ 1002 ∷ []) [] ≤ 5
unfolding get_row me.Base.find
wrong_tests-le-failures_example =
    wrong_tests-le-failures settings (codes "login") home 1000 2000 no_content
      (1000 ∷ 1001 ∷ 1002 ∷ []) [] (omega arith) (omega arith) (omega arith)
      ((omega arith, omega arith), ((omega arith, omega arith), ((omega arith, omega arith), tt)))
      refl

throttle_key_injective_example : home ≡ codes "10.0.0.1"
throttle_key_injective_example = throttle_key_injective (codes "login") home (codes "10.0.0.1") refl

attempt-elsewhere_example :
    get_lock_expiry
      (codes "verify_passphrase")
      home
      1002
      (attempt settings (codes "login") home 1001 false no_content one_failure).1
    ≡ get_lock_expiry (codes "verify_passphrase") home 1002 one_failure
attempt-elsewhere_example =
    attempt-elsewhere settings (codes "login") home 1001 no_content one_failure false
      (codes "verify_passphrase") home 1002 (action_keys_differ home home)

not_locked : get_lock_expiry (codes "login") home 1001 one_failure ≡ none
unfolding get_lock_expiry record_failure get_row me.Base.find me.Auth.Throttle.put_row
    me.Base.text_eq throttle_key
not_locked = refl

attempt-granted_example :
    ((attempt settings (codes "login") home 1001 true no_content one_failure).0 ≡ no_content)
    × (get_lock_expiry
          (codes "login")
          home
          1002
          (attempt settings (codes "login") home 1001 true no_content one_failure).1
        ≡ none)
    × (get_row
          (throttle_key (codes "login") home)
          (attempt settings (codes "login") home 1001 true no_content one_failure).1
        ≡ none)
attempt-granted_example =
    attempt-granted settings (codes "login") home 1001 no_content one_failure 1002 not_locked

abbrev claimed : Option Text → Text
claimed none = []
claimed (some sub) = sub

abbrev one_number : Text → Option ℕ
one_number [] = none
one_number (n ∷ t) = some n

-- The failures that the throttle counts for a login from home.
abbrev counted : Option AuthThrottle → ℕ
counted none = 0
counted (some row) = row.failure_count

-- A hash is the passphrase itself, and a token is its subject.
abbrev plain : Crypto
plain = record {
  hash = λ p. p;
  verify = text_eq;
  encode = λ claims. claimed claims.sub;
  decode = λ now token. some (record { sub = some token; iat = 0; exp = now });
  str_uuid = λ id. id ∷ [];
  parse_uuid = one_number;
  lower = λ t. t;
}

abbrev owner : User
owner = record { id = 7; passphrase_hash = codes "open"; created_at = 0 }

abbrev from_home : Request
from_home = record {
  authorization = some (codes "bearer " ++ (7 ∷ []));
  x_forwarded_for = none;
  x_confirm_passphrase = none;
  client_host = some home;
}

abbrev wrong_login : List AuthThrottle
wrong_login = (login plain settings 1001 (owner ∷ []) from_home (codes "guess") one_failure).1

-- The login of the example is refused, and its second failure is counted.
counts_failure : counted (get_row (throttle_key (codes "login") home) wrong_login) ≡ 2
unfolding login verify_passphrase client_ip record_failure get_row me.Base.find
    me.Auth.Throttle.put_row text_eq throttle_key get_lock_expiry
counts_failure = refl

handlers_apart_example :
    (get_lock_expiry (codes "verify_passphrase") home 1002 wrong_login
      ≡ get_lock_expiry (codes "verify_passphrase") home 1002 one_failure)
    × (get_lock_expiry
          (codes "login")
          home
          1002
          (verify_handler plain settings 1001 (owner ∷ []) from_home (codes "guess") one_failure).1
        ≡ get_lock_expiry (codes "login") home 1002 one_failure)
handlers_apart_example =
    handlers_apart plain settings 1001 (owner ∷ []) from_home (codes "guess") one_failure home 1002
