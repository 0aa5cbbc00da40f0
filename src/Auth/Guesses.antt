-- ===== src/Auth/Guesses.antt =====
-- How many wrong passphrases one address can have tested.
use me.Base.{
  ◌-◌, ℕ, ◌+◌, ◌≤◌, ◌<◌, ◌≡◌, refl, false, Option, none, some, List, [], ◌∷◌, arith, if◌then◌else◌,
  Text, All, is_none, text_eq_self, inl, inr, Option-cases,
}
use me.Auth.Throttle.{
  Settings, AuthThrottle, throttle_key, seconds, get_row, put_row, row_lock, get_lock_expiry,
  failed_row, record_failure, get_row-put_row, find_key,
}
use me.Auth.Login.{Response, attempt}

-- The tests of a wrong passphrase that a run of attempts leads to: an attempt while the address is
-- locked is refused without one.
unfoldable pub wrong_tests :
    Settings → (action ip : Text) → Response → List ℕ → List AuthThrottle → ℕ
wrong_tests settings action ip granted [] rows = 0
wrong_tests settings action ip granted (now ∷ times) rows =
    (if is_none (get_lock_expiry action ip now rows) then 1 else 0)
    + wrong_tests settings action ip granted times
        (attempt settings action ip now false granted rows).1

-- A row that is not locked counts fewer failures than the limit; a lock lasts until `until`.
abbrev LockHolds : Settings → (until failure_count : ℕ) → Option ℕ → Type 0
LockHolds settings until failure_count none = failure_count < settings.auth_rate_limit_failures
LockHolds settings until failure_count (some l) = until ≤ l

-- What holds of the row of the address until `until`, with its window.
abbrev Lasting : Settings → (until : ℕ) → Option AuthThrottle → Type 0
Lasting settings until none = Unit
Lasting settings until (some row) =
    (until ≤ row.window_started_at + seconds settings.auth_rate_limit_window_seconds)
    × LockHolds settings until row.failure_count row.locked_until

-- The tests that the row still allows.
abbrev budget : Settings → Option AuthThrottle → ℕ
budget settings none = settings.auth_rate_limit_failures
budget settings (some row) =
    if is_none row.locked_until then settings.auth_rate_limit_failures - row.failure_count else 0

module _ (settings : Settings) (action ip : Text) (start until : ℕ) where
  -- A failure between `start` and `until` leaves such a row, and uses up one test.
  failed_row-Lasting :
      (now : ℕ) (old : Option AuthThrottle)
      → 0 < settings.auth_rate_limit_failures
      → until ≤ start + seconds settings.auth_rate_limit_window_seconds
      → until ≤ start + seconds settings.auth_rate_limit_lock_seconds
      → start ≤ now
      → now < until
      → Lasting settings until old
      → row_lock now old ≡ none
      → Lasting settings until (some (failed_row action ip now settings old))
        × (budget settings (some (failed_row action ip now settings old)) + 1 ≤ budget settings old)
  unfolding failed_row row_lock
  failed_row-Lasting now none pos w l b e h free = ground arith
  failed_row-Lasting now (some row) pos w l b e h free = ground arith

  failed_row_key :
      (now : ℕ) (old : Option AuthThrottle)
      → ((row : AuthThrottle) → old ≡ some row → row.key ≡ throttle_key action ip)
      → (failed_row action ip now settings old).key ≡ throttle_key action ip
  unfolding failed_row
  failed_row_key now none h = ground arith
  failed_row_key now (some row) h = ground (arith, h row refl)

  attempt_locked :
      (granted : Response) (now : ℕ) (rows : List AuthThrottle) {l : ℕ}
      → get_lock_expiry action ip now rows ≡ some l
      → (attempt settings action ip now false granted rows).1 ≡ rows
  unfolding attempt
  attempt_locked granted now rows e = rw (e, attempt)

  attempt_wrong :
      (granted : Response) (now : ℕ) (rows : List AuthThrottle)
      → get_lock_expiry action ip now rows ≡ none
      → (attempt settings action ip now false granted rows).1
        ≡ put_row (failed_row action ip now settings (get_row (throttle_key action ip) rows)) rows
  unfolding attempt record_failure
  attempt_wrong granted now rows e = rw (e, attempt)

  -- The row of the address after a wrong attempt.
  row_after :
      (granted : Response) (now : ℕ) (rows : List AuthThrottle)
      → get_lock_expiry action ip now rows ≡ none
      → get_row (throttle_key action ip) (attempt settings action ip now false granted rows).1
        ≡ some (failed_row action ip now settings (get_row (throttle_key action ip) rows))
  row_after granted now rows e =
      let old = get_row (throttle_key action ip) rows in
      let new = failed_row action ip now settings old in
      let same : new.key ≡ throttle_key action ip =
        failed_row_key now old (λ row h. find_key (throttle_key action ip) rows row h) in
      rw (
        attempt_wrong granted now rows e,
        get_row-put_row (throttle_key action ip) new rows,
        same,
        text_eq_self (throttle_key action ip),
      )

  wrong_tests-le-budget :
      (granted : Response) (times : List ℕ) (rows : List AuthThrottle)
      → 0 < settings.auth_rate_limit_failures
      → until ≤ start + seconds settings.auth_rate_limit_window_seconds
      → until ≤ start + seconds settings.auth_rate_limit_lock_seconds
      → All (λ now. (start ≤ now) × (now < until)) times
      → Lasting settings until (get_row (throttle_key action ip) rows)
      → wrong_tests settings action ip granted times rows
        ≤ budget settings (get_row (throttle_key action ip) rows)
  unfolding wrong_tests
  wrong_tests-le-budget granted [] rows pos w l h k = omega arith
  wrong_tests-le-budget granted (now ∷ times) rows pos w l h k =
      elim (Option-cases (get_lock_expiry action ip now rows)) [
        | inr (u, locked) ↦
            rw (locked, attempt_locked granted now rows locked)
              (omega (arith, wrong_tests-le-budget granted times rows pos w l h.1 k))
        | inl free ↦
            let old = get_row (throttle_key action ip) rows in
            let rows' = (attempt settings action ip now false granted rows).1 in
            let (lasts, less) =
              failed_row-Lasting now old pos w l h.0.0 h.0.1 k (unfold get_lock_expiry in free) in
            let after = row_after granted now rows free in
            let ih = wrong_tests-le-budget granted times rows' pos w l h.1 (rw after lasts) in
            let ih' : wrong_tests settings action ip granted times rows'
                ≤ budget settings (some (failed_row action ip now settings old)) =
              rw after at ih in
            rw free (omega arith)
      ]

  -- From an address without recorded failures, wrong attempts at any times within one window and one
  -- lock period lead to at most `auth_rate_limit_failures` tests of a passphrase: the others are
  -- refused before it is tested.
  pub wrong_tests-le-failures :
      (granted : Response) (times : List ℕ) (rows : List AuthThrottle)
      → 0 < settings.auth_rate_limit_failures
      → until ≤ start + seconds settings.auth_rate_limit_window_seconds
      → until ≤ start + seconds settings.auth_rate_limit_lock_seconds
      → All (λ now. (start ≤ now) × (now < until)) times
      → get_row (throttle_key action ip) rows ≡ none
      → wrong_tests settings action ip granted times rows ≤ settings.auth_rate_limit_failures
  wrong_tests-le-failures granted times rows pos w l h clean =
      rw clean at (wrong_tests-le-budget granted times rows pos w l h (rw clean tt))
