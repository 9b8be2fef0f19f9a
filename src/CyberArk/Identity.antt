-- ===== src/CyberArk/Identity.antt =====
-- internal/cyberark/identity/identity.go: the login with a username and a password, and the token that it
-- caches. The server is a parameter: what it answers to a request, or why there is no answer, which
-- stands for all failures before one. The mutex makes one login a single step.
pub mod Login
use jetstack_secure.Prelude.{
  ℕ, ◌+◌, String, Bool, true, false, not, ◌&&◌, ◌||◌, Option, none, some, List, [], ◌∷◌, map, ◌==◌,
  eqb, ltb, if◌then◌else◌,
}
use jetstack_secure.Prelude.Results.{Result, ok, err, ◌>>=◌}

pub record StartAuthenticationRequestBody : Type 0 where
  pub tenant_id : String
  pub version : String
  pub user : String

-- `identityResponseBody`.
pub record IdentityResponseBody (T : Type 0) : Type 0 where
  pub success : Bool
  pub result : T
  pub message : String
  pub error_id : String

pub record Mechanism : Type 0 where
  pub name : String
  pub enrolled : Bool
  pub mechanism_id : String

-- A challenge is its mechanisms.
pub record StartAuthenticationResponseResult : Type 0 where
  pub session_id : String
  pub challenges : List (List Mechanism)
  pub summary : String

-- The answer is the password, in bytes.
pub record AdvanceAuthenticationRequestBody : Type 0 where
  pub action : String
  pub answer : List ℕ
  pub mechanism_id : String
  pub session_id : String
  pub tenant_id : String
  pub persistent_login : Bool

pub record AdvanceAuthenticationResponseResult : Type 0 where
  pub summary : String
  pub token : String

-- A response: the status code, and its body or why it cannot be decoded.
pub record HttpResponse (T : Type 0) : Type 0 where
  pub status_code : ℕ
  pub body : Result String (IdentityResponseBody T)

pub record Server : Type 0 where
  pub start_authentication :
      StartAuthenticationRequestBody
      → Result String (HttpResponse StartAuthenticationResponseResult)
  pub advance_authentication :
      AdvanceAuthenticationRequestBody
      → Result String (HttpResponse AdvanceAuthenticationResponseResult)

pub record Token : Type 0 where
  pub username : String
  pub token : String

-- Instants are nanoseconds from Go's zero time.
pub record Client : Type 0 where
  pub subdomain : String
  pub token_cached : Token
  pub token_cached_time : ℕ

pub data IdentityError : Type 0 where
  no_answer : String → IdentityError
  unexpected_status : ℕ → IdentityError
  not_parsed : String → IdentityError
  failure_response : String → String → IdentityError
  no_challenges many_challenges no_mechanisms many_mechanisms no_up_mechanism : IdentityError
  password_nil : IdentityError
  mfa_required : String → String → IdentityError

-- The body of an answer that reports success.
unfoldable pub successful : {T : Type 0} → Result String (HttpResponse T) → Result IdentityError T
successful (err e) = err (IdentityError.no_answer e)
successful (ok response) =
    if not (eqb response.status_code 200)
    then err (IdentityError.unexpected_status response.status_code)
    else (elim response.body [
      | err e ↦ err (IdentityError.not_parsed e)
      | ok body ↦
          (if body.success
            then ok body.result
            else err (IdentityError.failure_response body.message body.error_id))
    ])

unfoldable pub only_challenge : List (List Mechanism) → Result IdentityError (List Mechanism)
only_challenge [] = err IdentityError.no_challenges
only_challenge (challenge ∷ []) = ok challenge
only_challenge (challenge ∷ second ∷ rest) = err IdentityError.many_challenges

unfoldable pub only_mechanism : List Mechanism → Result IdentityError Mechanism
only_mechanism [] = err IdentityError.no_mechanisms
only_mechanism (mechanism ∷ []) = ok mechanism
only_mechanism (mechanism ∷ second ∷ rest) = err IdentityError.many_mechanisms

unfoldable pub advance_request :
    String → String → Mechanism → Result IdentityError AdvanceAuthenticationRequestBody
advance_request subdomain session_id mechanism =
    if not mechanism.enrolled || not (mechanism.name == "UP")
    then err IdentityError.no_up_mechanism
    else ok (record {
      action = "Answer";
      answer = [];
      mechanism_id = mechanism.mechanism_id;
      session_id = session_id;
      tenant_id = subdomain;
      persistent_login = true;
    })

unfoldable pub do_start_authentication :
    Server → Client → String → Result IdentityError AdvanceAuthenticationRequestBody
unfolding successful only_challenge only_mechanism advance_request
do_start_authentication server c username = do
  result ← successful (
      server.start_authentication
        (record { tenant_id = c.subdomain; version = "1.0"; user = username }))
  challenge ← only_challenge result.challenges
  mechanism ← only_mechanism challenge
  advance_request c.subdomain result.session_id mechanism

-- The token, unless the user has to do more.
unfoldable pub logged_in :
    String → AdvanceAuthenticationResponseResult → Result IdentityError String
logged_in username result =
    if not (result.summary == "LoginSuccess")
    then err (IdentityError.mfa_required result.summary username)
    else ok result.token

-- A nil password is `none`; the token is cached at the instant `done`.
unfoldable pub do_advance_authentication :
    Server
    → ℕ
    → Client
    → String
    → Option (List ℕ)
    → AdvanceAuthenticationRequestBody
    → Result IdentityError Client
unfolding successful logged_in
do_advance_authentication server done c username none request = err IdentityError.password_nil
do_advance_authentication server done c username (some password) request = do
  result ← successful (server.advance_authentication (record request { answer = password }))
  token ← logged_in username result
  ok (record c {
    token_cached = record { username = username; token = token };
    token_cached_time = done;
  })

-- 15 minutes.
abbrev pub token_lifetime : ℕ
token_lifetime = 900000000000

-- `time.Since(c.tokenCachedTime) < 15*time.Minute`, for the same user.
unfoldable pub is_fresh : Client → ℕ → String → Bool
is_fresh c now username =
    ltb now (c.token_cached_time + token_lifetime) && c.token_cached.username == username

-- The error or nil, and the client.
unfoldable pub after_login : Client → Result IdentityError Client → Option IdentityError × Client
after_login c (ok c') = (none, c')
after_login c (err e) = (some e, c)

unfoldable pub login : Server → ℕ → ℕ → Client → String → List ℕ → Option IdentityError × Client
unfolding is_fresh after_login do_start_authentication do_advance_authentication
login server now done c username password =
    if is_fresh c now username
    then (none, c)
    else after_login c (
        do_start_authentication server c username >>= λ request.
        do_advance_authentication server done c username (some password) request)

unfoldable pub zeroed : List ℕ → List ℕ
zeroed password = map (λ b. 0) password

-- The error or nil, the client, and the password that the deferred function leaves.
unfoldable pub login_username_password :
    Server → ℕ → ℕ → Client → String → List ℕ → (Option IdentityError × Client) × List ℕ
unfolding login zeroed
login_username_password server now done c username password =
    (login server now done c username password, zeroed password)

-- `AuthenticateRequest`: the bearer token that it adds to a request.
unfoldable pub authenticate_request : Client → Option String
authenticate_request c = if c.token_cached.token == "" then none else some c.token_cached.token
