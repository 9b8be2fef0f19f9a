-- ===== src/CyberArk/KeyFetch/Strong.antt =====
-- Which key is chosen, and that no weak key is ever used.
use jetstack_secure.Prelude.{
  ℕ, ◌≤◌, String, ◌≡◌, refl, ap, ◌∙◌, true, Option, none, some, List, [], ◌∷◌, ◌++◌, arith, ◌==◌,
  eq_iff, ltb, Bool-cases, Option-cases, inl, inr, ◌⊎◌,
}
use jetstack_secure.Prelude.Results.{
  Result, ok, err, >>=-eq-ok, Result-cases, or_error, or_error_lem,
}
use jetstack_secure.Prelude.Lists.{All}
use jetstack_secure.CyberArk.Identity.{
  Server, Client, IdentityError, login_username_password, authenticate_request, token_lifetime,
}
use jetstack_secure.CyberArk.KeyFetch.{
  RsaKey, RawKey, Jwk, PublicKey, FetchError, KeyServer, KeyClient, usable_key, usable_raw, usable,
  choose_key, wrap, request_key, parse_answer, store_key, fetch_after_login, is_key_fresh,
  fetch_key, min_rsa_key_size,
}

-- An RSA key for RSA-OAEP-256 with an id, that is long enough.
record IsUsable (k : Jwk) (key : PublicKey) : Type 0 where
  pub is_rsa : k.key_type ≡ "RSA"
  pub is_raw : k.raw_key ≡ some (RawKey.rsa key.key)
  pub has_id : k.key_id ≡ some key.key_id
  pub has_algorithm : k.algorithm ≡ some "RSA-OAEP-256"
  pub is_long : min_rsa_key_size ≤ key.key.bit_len

usable_key-inv :
    (rsa : RsaKey) (kid alg : Option String) (key : PublicKey)
    → usable_key rsa kid alg ≡ some key
    → (rsa ≡ key.key)
      × (kid ≡ some key.key_id)
      × (alg ≡ some "RSA-OAEP-256")
      × (min_rsa_key_size ≤ rsa.bit_len)
unfolding usable_key
usable_key-inv rsa (some kid) (some alg) key h =
    elim (Bool-cases (ltb rsa.bit_len min_rsa_key_size)) [
      | inl short ↦ let h' = rw (short, usable_key) at h in cc
      | inr long ↦ elim (Bool-cases (alg == "RSA-OAEP-256")) [
        | inl e ↦
            let h' = rw (long, e, usable_key) at h in
            let same : record { key_id = kid; key = rsa } ≡ key = cc in
            (
              ap (λ (p : PublicKey). p.key) same,
              ap (λ (p : PublicKey). some p.key_id) same,
              ap (λ (s : String). some s) ((eq_iff alg "RSA-OAEP-256").0 e),
              ground arith,
            )
        | inr e ↦ let h' = rw (long, e, usable_key) at h in cc
      ]
    ]
usable_key-inv rsa (some kid) none key h = cc
usable_key-inv rsa none alg key h = cc

usable_raw-inv :
    (k : Jwk) (raw : Option RawKey) (key : PublicKey)
    → usable_raw k raw ≡ some key
    → (raw ≡ some (RawKey.rsa key.key))
      × (k.key_id ≡ some key.key_id)
      × (k.algorithm ≡ some "RSA-OAEP-256")
      × (min_rsa_key_size ≤ key.key.bit_len)
unfolding usable_raw
usable_raw-inv k (some (RawKey.rsa r)) key h =
    let (same, kid, alg, long) = usable_key-inv r k.key_id k.algorithm key h in
    (ap (λ (x : RsaKey). some (RawKey.rsa x)) same, kid, alg, rw same at long)
usable_raw-inv k (some (RawKey.other_key s)) key h = cc
usable_raw-inv k none key h = cc

usable-inv : (k : Jwk) (key : PublicKey) → usable k ≡ some key → IsUsable k key
unfolding usable
usable-inv k key h = elim (Bool-cases (k.key_type == "RSA")) [
  | inl e ↦
      let (raw, kid, alg, long) = usable_raw-inv k k.raw_key key (rw (e, usable) at h) in
      record {
        is_rsa = (eq_iff k.key_type "RSA").0 e;
        is_raw = raw;
        has_id = kid;
        has_algorithm = alg;
        is_long = long;
      }
  | inr e ↦ let h' = rw (e, usable) at h in cc
]

-- The key that is chosen is usable, and it stands after keys that are not.
choose_key_first :
    (ks : List Jwk) (key : PublicKey)
    → choose_key ks ≡ some key
    → (before : List Jwk) × (k : Jwk) × (after : List Jwk) × (ks ≡ before ++ k ∷ after)
      × All (λ (j : Jwk). usable j ≡ none) before
      × IsUsable k key
unfolding choose_key
choose_key_first [] key h = cc
choose_key_first (k ∷ ks) key h = elim (Option-cases (usable k)) [
  | inl e ↦
      let (before, j, after, same, skipped, u) =
        choose_key_first ks key (rw (e, choose_key) at h) in
      (k ∷ before, j, after, ap (λ (xs : List Jwk). k ∷ xs) same, (e, skipped), u)
  | inr (found, e) ↦
      let h' = rw (e, choose_key) at h in
      let same : found ≡ key = cc in
      ([], k, ks, refl, tt, usable-inv k key (e ∙ ap (λ (x : PublicKey). some x) same))
]

-- A client that has cached no key, or a long one.
abbrev pub IsSafe : KeyClient → Type 0
IsSafe c = (c.cached_key_time ≡ 0) ⊎ (min_rsa_key_size ≤ c.cached_key.key.bit_len)

request_key_long :
    (keys : KeyServer) (api : String) (identity_client : Client) (key : PublicKey)
    → request_key keys api identity_client ≡ ok key
    → min_rsa_key_size ≤ key.key.bit_len
unfolding request_key wrap
request_key_long keys api identity_client key h =
    let (location, _, h1) = >>=-eq-ok (wrap FetchError.endpoint (keys.new_request api)) _ h in
    let (token, _, h2) =
      >>=-eq-ok (or_error (authenticate_request identity_client) FetchError.no_token) _ h1 in
    let (answer, _, h3) = >>=-eq-ok (wrap FetchError.fetching (keys.send location token)) _ h2 in
    let (parsed, _, h4) = >>=-eq-ok (parse_answer keys answer) _ h3 in
    let chosen = or_error_lem (choose_key parsed) FetchError.no_valid_keys h4 in
    let (_, _, _, _, _, u) = choose_key_first parsed key chosen in u.is_long

-- The result is a long key, or the client keeps the key that it had.
store_key-IsSafe :
    (done : ℕ) (c : KeyClient) (r : Result FetchError PublicKey)
    → ((key : PublicKey) → r ≡ ok key → min_rsa_key_size ≤ key.key.bit_len)
    → IsSafe c
    → IsSafe (store_key done c r).1
      × ((key : PublicKey) → (store_key done c r).0 ≡ ok key → min_rsa_key_size ≤ key.key.bit_len)
unfolding store_key
store_key-IsSafe done c (ok key) long s = (inr (long key refl), long)
store_key-IsSafe done c (err e) long s = (s, long)

fetch_after_login-IsSafe :
    (keys : KeyServer) (done : ℕ) (c : KeyClient) (api : String) (r : Option IdentityError × Client)
    → IsSafe c
    → IsSafe (fetch_after_login keys done c api r).1
      × ((key : PublicKey)
          → (fetch_after_login keys done c api r).0 ≡ ok key
          → min_rsa_key_size ≤ key.key.bit_len)
unfolding fetch_after_login
fetch_after_login-IsSafe keys done c api (some e, identity_client) s = (s, λ key h. cc)
fetch_after_login-IsSafe keys done c api (none, identity_client) s =
    store_key-IsSafe done (record c { identity_client = identity_client })
      (request_key keys api identity_client) (request_key_long keys api identity_client) s

is_key_fresh_set :
    (c : KeyClient) (now : ℕ)
    → token_lifetime ≤ now
    → c.cached_key_time ≡ 0
    → is_key_fresh c now ≡ true
    → ⊥
unfolding is_key_fresh
is_key_fresh_set c now late zero_time fresh = ground arith

-- From a client that has cached no key or a long one, at an instant later than the lifetime of a cached
-- key, `FetchKey` leaves such a client, and a key that it returns has at least 2048 bits.
pub fetch_key-IsSafe :
    (server : Server) (keys : KeyServer) (now logged_in done : ℕ) (c : KeyClient)
    → token_lifetime ≤ now
    → IsSafe c
    → IsSafe (fetch_key server keys now logged_in done c).1
      × ((key : PublicKey)
          → (fetch_key server keys now logged_in done c).0 ≡ ok key
          → min_rsa_key_size ≤ key.key.bit_len)
unfolding fetch_key
fetch_key-IsSafe server keys now logged_in done c late s = elim (Bool-cases (is_key_fresh c now)) [
  | inl fresh ↦
      let strong : min_rsa_key_size ≤ c.cached_key.key.bit_len = elim s [
        | inl zero_time ↦ absurd (is_key_fresh_set c now late zero_time fresh)
        | inr long ↦ long
      ] in
      rw (fresh, fetch_key) (s, λ key h. let same : c.cached_key ≡ key = cc in rw same at strong)
  | inr stale ↦ elim (Result-cases keys.discover_services) [
    | inl (api, found) ↦
        rw (stale, found, fetch_key)
          (fetch_after_login-IsSafe keys done c api
            (login_username_password server now logged_in c.identity_client c.username c.secret).0
            s)
    | inr (e, failed) ↦ rw (stale, failed, fetch_key) (s, λ key h. cc)
  ]
]
