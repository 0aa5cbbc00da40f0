-- ===== src/Auth/Throttle.antt =====
-- app/services/auth_throttle.py over the table of app/models/auth_throttle.py. An instant counts
-- microseconds. The columns `created_at` and `updated_at` are not read and are left out.
use me.Base.{
  ℕ, ◌+◌, ◌*◌, ◌≡◌, Bool, false, ◌||◌, Option, none, some, List, [], ◌∷◌, ◌++◌, leb, if◌then◌else◌,
  Text, text_eq, find, text_eq_iff, arith, refl,
}

-- The settings of app/core/config.py that authentication reads.
pub record Settings : Type 0 where
  pub jwt_expires_days : ℕ
  pub auth_rate_limit_failures : ℕ
  pub auth_rate_limit_window_seconds : ℕ
  pub auth_rate_limit_lock_seconds : ℕ
  pub trust_proxy_headers : Bool

pub record AuthThrottle : Type 0 where
  pub key : Text
  pub action : Text
  pub client_ip : Text
  pub failure_count : ℕ
  pub window_started_at : ℕ
  pub locked_until : Option ℕ

unfoldable pub throttle_key : Text → Text → Text
throttle_key action client_ip = action ++ b':' ∷ client_ip

-- `timedelta(seconds=…)`
abbrev pub seconds : ℕ → ℕ
seconds n = n * 1000000

-- `db.get(AuthThrottle, key)`
unfoldable pub get_row : Text → List AuthThrottle → Option AuthThrottle
get_row key = find (λ r. text_eq r.key key)

-- The row added or written back.
unfoldable pub put_row : AuthThrottle → List AuthThrottle → List AuthThrottle
put_row r [] = r ∷ []
put_row r (x ∷ rows) = if text_eq x.key r.key then r ∷ rows else x ∷ put_row r rows

-- `db.delete(row)`; the key is the primary key, so no second row has it.
unfoldable pub delete_row : Text → List AuthThrottle → List AuthThrottle
delete_row key [] = []
delete_row key (x ∷ rows) =
    let rest = delete_row key rows in if text_eq x.key key then rest else x ∷ rest

unfoldable pub row_lock : ℕ → Option AuthThrottle → Option ℕ
row_lock now none = none
row_lock now (some row) = elim row.locked_until [
  | none ↦ none
  | some until ↦ if leb until now then none else some until
]

unfoldable pub get_lock_expiry : (action client_ip : Text) (now : ℕ) → List AuthThrottle → Option ℕ
unfolding row_lock
get_lock_expiry action client_ip now rows =
    row_lock now (get_row (throttle_key action client_ip) rows)

-- `row.locked_until is not None and row.locked_until <= now`
unfoldable pub lock_is_over : Option ℕ → ℕ → Bool
lock_is_over none now = false
lock_is_over (some until) now = leb until now

-- The row before the last test of `record_failure`: new, started again, or with one more failure.
unfoldable pub count_failure :
    (action client_ip : Text) (now : ℕ) → Settings → Option AuthThrottle → AuthThrottle
unfolding lock_is_over
count_failure action client_ip now settings none = record {
  key = throttle_key action client_ip;
  action = action;
  client_ip = client_ip;
  failure_count = 1;
  window_started_at = now;
  locked_until = none;
}
count_failure action client_ip now settings (some row) =
    if lock_is_over row.locked_until now
      || leb (row.window_started_at + seconds settings.auth_rate_limit_window_seconds) now
    then record row { failure_count = 1; window_started_at = now; locked_until = none }
    else record row { failure_count = row.failure_count + 1 }

unfoldable pub lock_if_many : ℕ → Settings → AuthThrottle → AuthThrottle
lock_if_many now settings row =
    if leb settings.auth_rate_limit_failures row.failure_count
    then record row { locked_until = some (now + seconds settings.auth_rate_limit_lock_seconds) }
    else row

unfoldable pub failed_row :
    (action client_ip : Text) (now : ℕ) → Settings → Option AuthThrottle → AuthThrottle
unfolding lock_if_many count_failure
failed_row action client_ip now settings old =
    lock_if_many now settings (count_failure action client_ip now settings old)

-- The lock that it returns, and the table.
unfoldable pub record_failure :
    (action client_ip : Text) (now : ℕ)
    → Settings
    → List AuthThrottle
    → Option ℕ × List AuthThrottle
unfolding failed_row
record_failure action client_ip now settings rows =
    let row =
      failed_row action client_ip now settings (get_row (throttle_key action client_ip) rows) in
    (row.locked_until, put_row row rows)

unfoldable pub clear_failures : (action client_ip : Text) → List AuthThrottle → List AuthThrottle
clear_failures action client_ip rows = delete_row (throttle_key action client_ip) rows

-- Reading after writing.
pub get_row-put_row :
    (key : Text) (r : AuthThrottle) (rows : List AuthThrottle)
    → get_row key (put_row r rows) ≡ (if text_eq r.key key then some r else get_row key rows)
unfolding get_row put_row find
get_row-put_row key r [] = refl
get_row-put_row key r (x ∷ rows) = ground (
  arith,
  get_row-put_row key r rows,
  text_eq_iff x.key r.key,
  text_eq_iff x.key key,
  text_eq_iff r.key key,
)

pub get_row-delete_row :
    (key other : Text) (rows : List AuthThrottle)
    → get_row key (delete_row other rows) ≡ (if text_eq other key then none else get_row key rows)
unfolding get_row delete_row find
get_row-delete_row key other [] = ground arith
get_row-delete_row key other (x ∷ rows) = ground (
  arith,
  get_row-delete_row key other rows,
  text_eq_iff x.key other,
  text_eq_iff x.key key,
  text_eq_iff other key,
)

-- A row keeps its key.
pub find_key :
    (key : Text) (rows : List AuthThrottle) (row : AuthThrottle)
    → get_row key rows ≡ some row
    → row.key ≡ key
unfolding get_row find
find_key key [] row e = ground arith
find_key key (x ∷ rows) row e = ground (arith, find_key key rows row, text_eq_iff x.key key)
