-- ===== src/Auth/Security.antt =====
-- app/core/security.py, over the JWT and password libraries as parameters.
use me.Base.{
  ℕ, ◌+◌, ◌*◌, ◌/◌, Bool, false, not, ◌||◌, Option, none, some, List, [], ◌∷◌, ◌==◌, if◌then◌else◌,
  Text, codes, text_eq, find, is_empty,
}
use me.Text.{strip}
use me.Auth.Throttle.{Settings}

pub record User : Type 0 where
  pub id : ℕ
  pub passphrase_hash : Text
  pub created_at : ℕ

-- The claims of `mint_access_token`, with times in seconds; a decoded token may lack `sub`.
pub record Claims : Type 0 where
  pub sub : Option Text
  pub iat : ℕ
  pub exp : ℕ

-- Third-party code: argon2, PyJWT under the configured secret, and Python's `UUID` and `lower`.
pub record Crypto : Type 0 where
  -- `_hasher.hash(plain)`, and `_hasher.verify(hashed, plain)` with an exception as `false`
  pub hash : Text → Text
  pub verify : (hashed plain : Text) → Bool
  -- `jwt.encode` and, at an instant, `jwt.decode`, with a `PyJWTError` as `none`
  pub encode : Claims → Text
  pub decode : (now : ℕ) → Text → Option Claims
  pub str_uuid : ℕ → Text
  pub parse_uuid : Text → Option ℕ
  pub lower : Text → Text

unfoldable pub verify_passphrase : Crypto → (plain hashed : Text) → Bool
verify_passphrase c plain hashed = c.verify hashed plain

-- `timedelta(days=…)`
abbrev pub days : ℕ → ℕ
days n = n * 86400000000

-- The token, and when it expires.
unfoldable pub mint_access_token : Crypto → (now user_id expires_in : ℕ) → Text × ℕ
mint_access_token c now user_id expires_in =
    let expires_at = now + expires_in in
    (
      c.encode (record {
        sub = some (c.str_uuid user_id);
        iat = now / 1000000;
        exp = expires_at / 1000000;
      }),
      expires_at,
    )

claimed_user : Crypto → Option Text → Option ℕ
claimed_user c none = none
claimed_user c (some sub) = c.parse_uuid sub

read_claims : Crypto → Option Claims → Option ℕ
unfolding claimed_user
read_claims c none = none
read_claims c (some claims) = claimed_user c claims.sub

-- `none` is an `InvalidTokenError`.
unfoldable pub decode_access_token : Crypto → (now : ℕ) → Text → Option ℕ
unfolding read_claims
decode_access_token c now token = read_claims c (c.decode now token)

-- What the handlers read of a request: two headers, and the address of the peer.
pub record Request : Type 0 where
  pub authorization : Option Text
  pub x_forwarded_for : Option Text
  pub x_confirm_passphrase : Option Text
  pub client_host : Option Text

-- `fwd.split(",")[0]`
unfoldable pub first_field : Text → Text
first_field [] = []
first_field (ch ∷ t) = let rest = first_field t in if ch == b',' then [] else ch ∷ rest

peer : Option Text → Text
peer (some host) = host
peer none = codes "unknown"

forwarded : Text → Option Text → Text
unfolding first_field strip
forwarded direct none = direct
forwarded direct (some fwd) = if is_empty fwd then direct else strip (first_field fwd)

unfoldable pub client_ip : Request → Settings → Text
unfolding peer forwarded
client_ip request settings =
    let direct = peer request.client_host in
    if settings.trust_proxy_headers then forwarded direct request.x_forwarded_for else direct

-- `header.partition(" ")`: the text before the first space, and the text after it.
unfoldable pub partition_space : Text → Text × Text
partition_space [] = ([], [])
partition_space (ch ∷ t) =
    let rest = partition_space t in if ch == b' ' then ([], t) else (ch ∷ rest.0, rest.1)

read_header : Crypto → Text × Text → Option Text
read_header c (scheme, token) =
    if not (text_eq (c.lower scheme) (codes "bearer")) || is_empty token then none else some token

-- `none` is the 401 of `_UNAUTHORIZED`, here and below.
unfoldable pub bearer_token : Crypto → Request → Option Text
unfolding read_header partition_space
bearer_token c request = elim request.authorization [
  | none ↦ none
  | some header ↦ if is_empty header then none else read_header c (partition_space header)
]

user_with_id : List User → Option ℕ → Option User
user_with_id users none = none
user_with_id users (some id) = find (λ u. u.id == id) users

user_of_token : Crypto → ℕ → List User → Option Text → Option User
unfolding user_with_id decode_access_token
user_of_token c now users none = none
user_of_token c now users (some token) = user_with_id users (decode_access_token c now token)

unfoldable pub current_user : Crypto → (now : ℕ) → List User → Request → Option User
unfolding user_of_token bearer_token
current_user c now users request = user_of_token c now users (bearer_token c request)

-- `select(User).limit(1)`
abbrev pub first_user : List User → Option User
first_user [] = none
first_user (u ∷ users) = some u

is_passphrase_of : Crypto → Text → Option User → Bool
is_passphrase_of c supplied none = false
is_passphrase_of c supplied (some user) = verify_passphrase c supplied user.passphrase_hash

-- Whether the step-up of `DELETE /memories/{id}` passes.
unfoldable pub confirm_passphrase : Crypto → List User → Request → Bool
unfolding is_passphrase_of verify_passphrase
confirm_passphrase c users request = elim request.x_confirm_passphrase [
  | none ↦ false
  | some supplied ↦
      if is_empty supplied then false else is_passphrase_of c supplied (first_user users)
]
