-- ===== src/Auth/Separation.antt =====
-- The throttle of one action and address does not touch another, and a granted attempt clears it.
use me.Base.{
  ℕ, ◌≡◌, ◌≢◌, ap, sym, Bool, true, false, none, List, [], ◌∷◌, arith, Text, codes, text_eq_iff,
  text_eq_self, inl, inr, Option-cases,
}
use me.Auth.Throttle.{
  Settings, AuthThrottle, throttle_key, get_row, row_lock, get_lock_expiry, failed_row,
  record_failure, clear_failures, get_row-put_row, get_row-delete_row, find_key,
}
use me.Auth.Login.{
  Response, no_content, attempt, login, login_passes, login_response, verify_handler,
}
use me.Auth.Security.{User, Crypto, Request, verify_passphrase, first_user, client_ip, current_user}

-- Two addresses of one action have two keys.
pub throttle_key_injective :
    (action ip ip' : Text) → throttle_key action ip ≡ throttle_key action ip' → ip ≡ ip'
unfolding throttle_key
throttle_key_injective [] ip ip' e = cc
throttle_key_injective (c ∷ action) ip ip' e = throttle_key_injective action ip ip' (ground arith)

-- The prefixes of the two handlers' keys differ.
pub action_keys_differ :
    (ip ip' : Text) → throttle_key (codes "login") ip ≢ throttle_key (codes "verify_passphrase") ip'
unfolding throttle_key
action_keys_differ ip ip' e = ground arith

failed_row_key :
    (settings : Settings) (action ip : Text) (now : ℕ) (rows : List AuthThrottle)
    → (failed_row action ip now settings (get_row (throttle_key action ip) rows)).key
      ≡ throttle_key action ip
unfolding failed_row
failed_row_key settings action ip now rows =
    elim (Option-cases (get_row (throttle_key action ip) rows)) [
      | inl clean ↦ rw (clean, failed_row) (ground arith)
      | inr (row, found) ↦
          rw (found, failed_row) (ground (arith, find_key (throttle_key action ip) rows row found))
    ]

module _ (settings : Settings) (action ip : Text) (now : ℕ) (granted : Response)
    (rows : List AuthThrottle) where
  record_failure-elsewhere :
      (key : Text)
      → throttle_key action ip ≢ key
      → get_row key (record_failure action ip now settings rows).1 ≡ get_row key rows
  unfolding record_failure
  record_failure-elsewhere key h =
      let row = failed_row action ip now settings (get_row (throttle_key action ip) rows) in
      ground (
        arith,
        get_row-put_row key row rows,
        failed_row_key settings action ip now rows,
        text_eq_iff row.key key,
      )

  attempt-get_row :
      (passes : Bool) (key : Text)
      → throttle_key action ip ≢ key
      → get_row key (attempt settings action ip now passes granted rows).1 ≡ get_row key rows
  unfolding attempt clear_failures
  attempt-get_row true key h = elim (Option-cases (get_lock_expiry action ip now rows)) [
    | inr (l, locked) ↦ rw (locked, attempt)
    | inl free ↦
        rw (free, attempt)
          (ground (
            arith,
            get_row-delete_row key (throttle_key action ip) rows,
            text_eq_iff (throttle_key action ip) key,
          ))
  ]
  attempt-get_row false key h = elim (Option-cases (get_lock_expiry action ip now rows)) [
    | inr (l, locked) ↦ rw (locked, attempt)
    | inl free ↦ rw (free, attempt) (record_failure-elsewhere key h)
  ]

  -- An attempt, granted or refused, leaves the lock of every other pair of an action and an address
  -- as it is: of another address for the same action, and of either action for the other.
  pub attempt-elsewhere :
      (passes : Bool) (action' ip' : Text) (now' : ℕ)
      → throttle_key action ip ≢ throttle_key action' ip'
      → get_lock_expiry action' ip' now' (attempt settings action ip now passes granted rows).1
        ≡ get_lock_expiry action' ip' now' rows
  unfolding get_lock_expiry
  attempt-elsewhere passes action' ip' now' h =
      ap (row_lock now') (attempt-get_row passes (throttle_key action' ip') h)

  -- If the address is not locked, a right passphrase is granted and forgets its failures: it is
  -- locked at no later time, and its next failure counts as the first.
  pub attempt-granted :
      (now' : ℕ)
      → get_lock_expiry action ip now rows ≡ none
      → ((attempt settings action ip now true granted rows).0 ≡ granted)
        × (get_lock_expiry action ip now' (attempt settings action ip now true granted rows).1
            ≡ none)
        × (get_row (throttle_key action ip) (attempt settings action ip now true granted rows).1
            ≡ none)
  attempt-granted now' free =
      let key = throttle_key action ip in
      let gone : get_row key (attempt settings action ip now true granted rows).1 ≡ none =
        unfold attempt clear_failures in
        rw (free, attempt) (ground (arith, get_row-delete_row key key rows, text_eq_self key)) in
      (
        unfold attempt in rw (free, attempt),
        unfold get_lock_expiry in ap (row_lock now') gone,
        gone,
      )

module _ (c : Crypto) (settings : Settings) (now : ℕ) (users : List User) (request : Request)
    (passphrase : Text) (rows : List AuthThrottle) (ip' : Text) (now' : ℕ) where
  login-elsewhere :
      get_lock_expiry
        (codes "verify_passphrase")
        ip'
        now'
        (login c settings now users request passphrase rows).1
      ≡ get_lock_expiry (codes "verify_passphrase") ip' now' rows
  unfolding login
  login-elsewhere =
      attempt-elsewhere settings (codes "login") (client_ip request settings) now
        (login_response c settings now (first_user users)) rows
        (login_passes c passphrase (first_user users)) (codes "verify_passphrase") ip' now'
        (action_keys_differ (client_ip request settings) ip')

  verify_handler-elsewhere :
      get_lock_expiry
        (codes "login")
        ip'
        now'
        (verify_handler c settings now users request passphrase rows).1
      ≡ get_lock_expiry (codes "login") ip' now' rows
  unfolding verify_handler
  verify_handler-elsewhere = elim (Option-cases (current_user c now users request)) [
    | inl e ↦ rw (e, verify_handler)
    | inr (user, e) ↦
        rw (e, verify_handler)
          (attempt-elsewhere settings (codes "verify_passphrase") (client_ip request settings) now
            no_content rows (verify_passphrase c passphrase user.passphrase_hash) (codes "login")
            ip' now' (λ same. action_keys_differ ip' (client_ip request settings) (sym same)))
  ]

  -- Whatever the request, the passphrase and the users, a call of the login handler leaves every
  -- address locked or free to verify a passphrase as it was, and a call of the handler that verifies
  -- a passphrase leaves every address locked or free to log in as it was.
  pub handlers_apart :
      (get_lock_expiry
          (codes "verify_passphrase")
          ip'
          now'
          (login c settings now users request passphrase rows).1
        ≡ get_lock_expiry (codes "verify_passphrase") ip' now' rows)
      × (get_lock_expiry
            (codes "login")
            ip'
            now'
            (verify_handler c settings now users request passphrase rows).1
          ≡ get_lock_expiry (codes "login") ip' now' rows)
  handlers_apart = (login-elsewhere, verify_handler-elsewhere)
