-- ===== src/CyberArk/Identity/Login.antt =====
-- What a login does to the client, and when the cached token is used.
use jetstack_secure.Prelude.{
  ℕ, ◌+◌, String, ◌≡◌, refl, ap, ◌∙◌, true, not, ◌||◌, none, some, List, [], ◌∷◌, arith, ◌==◌,
  eq_iff, ltb, Bool-cases, inl, inr, ◌⊎◌,
}
use jetstack_secure.Prelude.Results.{ok, ◌>>=◌, >>=-eq-ok, Result-cases}
use jetstack_secure.CyberArk.Identity.{
  Server, Client, Mechanism, IdentityError, StartAuthenticationResponseResult,
  AdvanceAuthenticationRequestBody, AdvanceAuthenticationResponseResult, successful, only_challenge,
  only_mechanism, advance_request, do_start_authentication, logged_in, do_advance_authentication,
  is_fresh, after_login, login, login_username_password, token_lifetime,
}

-- The server let the user in: it offered one mechanism, username and password, and took the answer.
pub record IsGranted (server : Server) (c : Client) (username : String) (password : List ℕ)
    (token : String) : Type 0 where
  pub start : StartAuthenticationResponseResult
  pub mechanism : Mechanism
  pub is_started :
      successful (
        server.start_authentication
          (record { tenant_id = c.subdomain; version = "1.0"; user = username }))
      ≡ ok start
  pub is_only : start.challenges ≡ (mechanism ∷ []) ∷ []
  pub is_enrolled : mechanism.enrolled ≡ true
  pub is_up : mechanism.name ≡ "UP"
  pub is_accepted :
      successful (
        server.advance_authentication (record {
          action = "Answer";
          answer = password;
          mechanism_id = mechanism.mechanism_id;
          session_id = start.session_id;
          tenant_id = c.subdomain;
          persistent_login = true;
        }))
      ≡ ok (record { summary = "LoginSuccess"; token = token })

only_challenge-inv :
    (xs : List (List Mechanism)) (x : List Mechanism) → only_challenge xs ≡ ok x → xs ≡ x ∷ []
unfolding only_challenge
only_challenge-inv [] x h = cc
only_challenge-inv (y ∷ []) x h = cc
only_challenge-inv (y ∷ z ∷ ys) x h = cc

only_mechanism-inv : (xs : List Mechanism) (x : Mechanism) → only_mechanism xs ≡ ok x → xs ≡ x ∷ []
unfolding only_mechanism
only_mechanism-inv [] x h = cc
only_mechanism-inv (y ∷ []) x h = cc
only_mechanism-inv (y ∷ z ∷ ys) x h = cc

abbrev request_of : String → String → String → AdvanceAuthenticationRequestBody
request_of subdomain session_id mechanism_id = record {
  action = "Answer";
  answer = [];
  mechanism_id = mechanism_id;
  session_id = session_id;
  tenant_id = subdomain;
  persistent_login = true;
}

advance_request-inv :
    (subdomain session_id : String) (m : Mechanism) (request : AdvanceAuthenticationRequestBody)
    → advance_request subdomain session_id m ≡ ok request
    → (m.enrolled ≡ true)
      × (m.name ≡ "UP")
      × (request_of subdomain session_id m.mechanism_id ≡ request)
unfolding advance_request
advance_request-inv subdomain session_id m request h =
    elim (Bool-cases (not m.enrolled || not (m.name == "UP"))) [
      | inl bad ↦ let h' = rw (bad, advance_request) at h in cc
      | inr good ↦
          let h' = rw (good, advance_request) at h in
          (ground arith, ground (arith, eq_iff m.name "UP"), cc)
    ]

logged_in-inv :
    (username : String) (r : AdvanceAuthenticationResponseResult) (token : String)
    → logged_in username r ≡ ok token
    → r ≡ record { summary = "LoginSuccess"; token = token }
unfolding logged_in
logged_in-inv username r token h = elim (Bool-cases (r.summary == "LoginSuccess")) [
  | inl e ↦
      let h' = rw (e, logged_in) at h in
      let same : r.token ≡ token = cc in
      λ i. record { summary = (eq_iff r.summary "LoginSuccess").0 e i; token = same i }
  | inr e ↦ let h' = rw (e, logged_in) at h in cc
]

granted :
    (server : Server) (done : ℕ) (c c' : Client) (username : String) (password : List ℕ)
    → (do_start_authentication server c username >>= λ request.
        do_advance_authentication server done c username (some password) request)
      ≡ ok c'
    → (token : String) × IsGranted server c username password token
      × (c' ≡ record c {
        token_cached = record { username = username; token = token };
        token_cached_time = done;
      })
unfolding do_start_authentication do_advance_authentication
granted server done c c' username password h =
    let (request, started, advanced) = >>=-eq-ok (do_start_authentication server c username) _ h in
    let (start, answered, h1) = >>=-eq-ok _ _ started in
    let (challenge, one, h2) = >>=-eq-ok (only_challenge start.challenges) _ h1 in
    let (m, single, asked) = >>=-eq-ok (only_mechanism challenge) _ h2 in
    let (enrolled, up, made) = advance_request-inv c.subdomain start.session_id m request asked in
    let (result, accepted, h3) =
      >>=-eq-ok (successful (server.advance_authentication (record request { answer = password })))
        _ advanced in
    let (token, allowed, final) = >>=-eq-ok (logged_in username result) _ h3 in
    (
      token,
      record {
        start = start;
        mechanism = m;
        is_started = answered;
        is_only =
            only_challenge-inv start.challenges challenge one
            ∙ ap (λ (ms : List Mechanism). ms ∷ []) (only_mechanism-inv challenge m single);
        is_enrolled = enrolled;
        is_up = up;
        is_accepted =
            ap
              (λ (r : AdvanceAuthenticationRequestBody).
                successful (server.advance_authentication (record r { answer = password })))
              made
            ∙ accepted
            ∙ ap (λ (r : AdvanceAuthenticationResponseResult). ok r)
                (logged_in-inv username result token allowed);
      },
      cc,
    )

-- A login without an error leaves a token of the user: the cached one, no older than its lifetime, or one
-- that the server granted to the password, cached at the end of the login.
pub login_username_password_ok :
    (server : Server) (now done : ℕ) (c : Client) (username : String) (password : List ℕ)
    → (login_username_password server now done c username password).0.0 ≡ none
    → ((is_fresh c now username ≡ true)
        × ((login_username_password server now done c username password).0.1 ≡ c))
      ⊎ ((token : String) × IsGranted server c username password token
          × ((login_username_password server now done c username password).0.1 ≡ record c {
            token_cached = record { username = username; token = token };
            token_cached_time = done;
          }))
unfolding login_username_password login
login_username_password_ok server now done c username password h =
    elim (Bool-cases (is_fresh c now username)) [
      | inl fresh ↦ inl (fresh, rw fresh refl)
      | inr stale ↦
          elim (Result-cases (
            do_start_authentication server c username >>= λ request.
            do_advance_authentication server done c username (some password) request)) [
              | inl (c', ran) ↦
                  let (token, g, same) = granted server done c c' username password ran in
                  inr (token, g, rw (stale, ran, after_login) same)
              | inr (e, failed) ↦ let h' = rw (stale, failed, after_login) at h in cc
            ]
    ]

-- A login with an error leaves the client as it was.
pub login_username_password_err :
    (server : Server) (now done : ℕ) (c : Client) (username : String) (password : List ℕ)
    (e : IdentityError)
    → (login_username_password server now done c username password).0.0 ≡ some e
    → (login_username_password server now done c username password).0.1 ≡ c
unfolding login_username_password login
login_username_password_err server now done c username password e h =
    elim (Bool-cases (is_fresh c now username)) [
      | inl fresh ↦ rw fresh refl
      | inr stale ↦
          elim (Result-cases (
            do_start_authentication server c username >>= λ request.
            do_advance_authentication server done c username (some password) request)) [
              | inl (c', ran) ↦ let h' = rw (stale, ran, after_login) at h in cc
              | inr (f, failed) ↦ rw (stale, failed, after_login) refl
            ]
    ]

is_fresh-username :
    (c : Client) (now : ℕ) (username : String)
    → is_fresh c now username ≡ true
    → c.token_cached.username ≡ username
unfolding is_fresh
is_fresh-username c now username h = ground (arith, eq_iff c.token_cached.username username)

login-is_fresh :
    (server : Server) (now done : ℕ) (c : Client) (username : String) (password : List ℕ)
    → ltb now (c.token_cached_time + token_lifetime) ≡ true
    → c.token_cached.username ≡ username
    → (login_username_password server now done c username password).0 ≡ (none, c)
unfolding login_username_password login is_fresh
login-is_fresh server now done c username password young same =
    let named = (eq_iff c.token_cached.username username).1 same in rw (young, named) refl

-- After a login without an error, another one of the same user succeeds with any server and any password,
-- and keeps the client, until the lifetime of the token is over.
pub login_username_password_again :
    (server server' : Server) (now done now' done' : ℕ) (c : Client) (username : String)
    (password password' : List ℕ)
    → (login_username_password server now done c username password).0.0 ≡ none
    → ltb now' (
        (login_username_password server now done c username password).0.1.token_cached_time
        + token_lifetime)
      ≡ true
    → (login_username_password server' now' done'
        (login_username_password server now done c username password).0.1
        username
        password').0
      ≡ (none, (login_username_password server now done c username password).0.1)
login_username_password_again server server' now done now' done' c username password password' h
      young =
    let c' = (login_username_password server now done c username password).0.1 in
    let same : c'.token_cached.username ≡ username =
      elim (login_username_password_ok server now done c username password h) [
        | inl (fresh, kept) ↦
            ap (λ (d : Client). d.token_cached.username) kept
            ∙ is_fresh-username c now username fresh
        | inr (token, g, made) ↦ ap (λ (d : Client). d.token_cached.username) made
      ] in
    login-is_fresh server' now' done' c' username password' young same
