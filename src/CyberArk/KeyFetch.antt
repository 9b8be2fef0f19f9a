-- ===== src/CyberArk/KeyFetch.antt =====
-- internal/envelope/keyfetch/client.go: `FetchKey`, over the service discovery, the key server (whose
-- answer is read in full, or not at all) and the parser of key sets. The mutex makes one call a single
-- step.
pub mod Strong
use jetstack_secure.Prelude.{
  ℕ, ◌+◌, String, Bool, true, false, not, Option, none, some, List, [], ◌∷◌, ◌==◌, eqb, ltb,
  if◌then◌else◌,
}
use jetstack_secure.Prelude.Results.{Result, ok, err, ◌>>=◌, or_error}
use jetstack_secure.CyberArk.Identity.{
  Server, Client, IdentityError, login_username_password, authenticate_request, token_lifetime,
}

-- An RSA public key, with the size of its modulus.
pub record RsaKey : Type 0 where
  pub bit_len : ℕ
  pub modulus : String

-- `jwk.Export`: an RSA public key, or a key of another type.
pub data RawKey : Type 0 where
  rsa : RsaKey → RawKey
  other_key : String → RawKey

-- What is read of a `jwk.Key`; a key that cannot be exported has no raw key.
pub record Jwk : Type 0 where
  pub key_type : String
  pub raw_key : Option RawKey
  pub key_id : Option String
  pub algorithm : Option String

pub record PublicKey : Type 0 where
  pub key_id : String
  pub key : RsaKey

pub data FetchError : Type 0 where
  discovery : String → FetchError
  authenticating : IdentityError → FetchError
  endpoint : String → FetchError
  no_token : FetchError
  fetching : String → FetchError
  unexpected_status : ℕ → FetchError
  parsing : String → FetchError
  no_valid_keys : FetchError

-- The service discovery gives the API of the discovery context; a request is its endpoint and its token,
-- and is answered with a status code and a body.
pub record KeyServer : Type 0 where
  pub discover_services : Result String String
  -- `url.JoinPath` and `http.NewRequestWithContext`.
  pub new_request : String → Result String String
  pub send : String → String → Result String (ℕ × String)
  pub parse_keys : String → Result String (List Jwk)

pub record KeyClient : Type 0 where
  pub identity_client : Client
  pub username : String
  pub secret : List ℕ
  pub cached_key : PublicKey
  pub cached_key_time : ℕ

abbrev pub min_rsa_key_size : ℕ
min_rsa_key_size = 2048

-- The checks of the loop on an exported key.
unfoldable pub usable_key : RsaKey → Option String → Option String → Option PublicKey
usable_key key (some kid) (some alg) =
    if ltb key.bit_len min_rsa_key_size
    then none
    else if not (alg == "RSA-OAEP-256")
    then none
    else some (record { key_id = kid; key = key })
usable_key key _ _ = none

unfoldable pub usable_raw : Jwk → Option RawKey → Option PublicKey
unfolding usable_key
usable_raw k (some (rsa key)) = usable_key key k.key_id k.algorithm
usable_raw k _ = none

unfoldable pub usable : Jwk → Option PublicKey
unfolding usable_raw
usable k = if not (k.key_type == "RSA") then none else usable_raw k k.raw_key

-- The first key that is usable.
unfoldable pub choose_key : List Jwk → Option PublicKey
unfolding usable
choose_key [] = none
choose_key (k ∷ ks) =
    let rest = choose_key ks in elim (usable k) [ some key ↦ some key | none ↦ rest ]

unfoldable pub wrap {ℓ} :
    {A : Type ℓ} → (String → FetchError) → Result String A → Result FetchError A
wrap f (ok a) = ok a
wrap f (err e) = err (f e)

-- The keys of an answer: its status code and its body.
unfoldable pub parse_answer : KeyServer → ℕ × String → Result FetchError (List Jwk)
unfolding wrap
parse_answer keys (status, body) =
    if not (eqb status 200)
    then err (FetchError.unexpected_status status)
    else wrap FetchError.parsing (keys.parse_keys body)

-- The request and what is made of its answer, after the login.
unfoldable pub request_key : KeyServer → String → Client → Result FetchError PublicKey
unfolding wrap authenticate_request choose_key parse_answer
request_key keys api identity_client = do
  location ← wrap FetchError.endpoint (keys.new_request api)
  token ← or_error (authenticate_request identity_client) FetchError.no_token
  answer ← wrap FetchError.fetching (keys.send location token)
  parsed ← parse_answer keys answer
  or_error (choose_key parsed) FetchError.no_valid_keys

-- A key is cached at the instant `done`.
unfoldable pub store_key :
    ℕ → KeyClient → Result FetchError PublicKey → Result FetchError PublicKey × KeyClient
store_key done c (ok key) = (ok key, record c { cached_key = key; cached_key_time = done })
store_key done c (err e) = (err e, c)

unfoldable pub fetch_after_login :
    KeyServer
    → ℕ
    → KeyClient
    → String
    → Option IdentityError × Client
    → Result FetchError PublicKey × KeyClient
unfolding request_key store_key
fetch_after_login keys done c api (some e, identity_client) =
    (err (FetchError.authenticating e), record c { identity_client = identity_client })
fetch_after_login keys done c api (none, identity_client) =
    store_key done (record c { identity_client = identity_client })
      (request_key keys api identity_client)

-- `time.Since(c.cachedKeyTime) < 15*time.Minute`.
unfoldable pub is_key_fresh : KeyClient → ℕ → Bool
is_key_fresh c now = ltb now (c.cached_key_time + token_lifetime)

-- `FetchKey`, which starts at `now`, has logged in at `logged_in` and has the key at `done`.
unfoldable pub fetch_key :
    Server → KeyServer → ℕ → ℕ → ℕ → KeyClient → Result FetchError PublicKey × KeyClient
unfolding is_key_fresh fetch_after_login login_username_password
fetch_key server keys now logged_in done c =
    if is_key_fresh c now then (ok c.cached_key, c) else (elim keys.discover_services [
      | err e ↦ (err (FetchError.discovery e), c)
      | ok api ↦
          fetch_after_login keys done c api
            (login_username_password server now logged_in c.identity_client c.username c.secret).0
    ])
