-- ===== src/Clients/Oauth.antt =====
-- pkg/client/client_oauth.go: the upload with a bearer token that a user's name and secret buy, and that
-- is kept until it expires.
pub mod Credentials
pub mod Grants
pub mod Uploads
pub mod Held
pub mod Poster
use jetstack_secure.Prelude.{
  ℕ, ◌+◌, String, Bool, true, false, not, ◌&&◌, ◌||◌, Option, none, some, List, [], ◌∷◌, ◌++◌, ◌==◌,
  is_set, ltb, eqb, if◌then◌else◌,
}
use jetstack_secure.Prelude.Results.{Result, ok, err, ◌>>=◌}
use jetstack_secure.Prelude.Texts.{concat}
use jetstack_secure.Prelude.Lists.{is_empty}
use jetstack_secure.Api.{DataReading, AgentMetadata, DataReadingsPost}
use jetstack_secure.CyberArk.Publish.{Options}
use jetstack_secure.Clients.Http.{Request, Response, Web, is_success, full_url}
use jetstack_secure.Clients.Instants.{seconds, add_duration}

pub record OAuthCredentials : Type 0 where
  pub user_id : String
  pub user_secret : String
  pub client_id : String
  pub client_secret : String
  pub auth_server_domain : String

pub record AccessToken : Type 0 where
  pub bearer : String
  pub expiration_date : ℕ

pub record OAuthClient : Type 0 where
  pub credentials : OAuthCredentials
  pub access_token : AccessToken
  pub base_url : String
  pub agent_metadata : AgentMetadata

pub data OAuthError : Type 0 where
  nil_credentials empty_user_id empty_user_secret empty_base_url : OAuthError
  client_not_set : String → OAuthError
  not_marshalled no_request no_response not_read not_parsed : String → OAuthError
  no_access_token : ℕ → String → OAuthError
  wrong_expiration : OAuthError
  -- The status code, and the body where it can be read.
  bad_status : ℕ → String → OAuthError

-- The variables that the build sets.
pub record BuildVariables : Type 0 where
  pub client_id : String
  pub client_secret : String
  pub auth_server_domain : String

-- The body of a token response.
pub record TokenResponse : Type 0 where
  pub access_token : String
  pub expires_in : ℕ

-- `url.Values.Encode`, `filepath.Join`, the JSON encoding and decoding, and the user agent.
pub record Library (D : Type 0) : Type 0 where
  pub encode_form : List (String × String) → String
  pub join_path : List String → String
  pub marshal : DataReadingsPost D → Result String String
  pub unmarshal_token : String → Result String TokenResponse
  pub user_agent : String

-- When a post gathers its data, tests the token and has a new one.
pub record Clock : Type 0 where
  pub gathered : ℕ
  pub checked : ℕ
  pub renewed : ℕ

unfoldable pub needs_renew : AccessToken → ℕ → Bool
needs_renew t now = t.bearer == "" || ltb t.expiration_date now

unfoldable pub or_oauth_error {ℓ} :
    {A : Type ℓ} → (String → OAuthError) → Result String A → Result OAuthError A
or_oauth_error f (ok a) = ok a
or_oauth_error f (err e) = err (f e)

-- The response to a request that can be made.
unfoldable pub respond : Web → Request → Result OAuthError Response
unfolding or_oauth_error
respond web request = elim (web.refuses request.url) [
  | some e ↦ err (OAuthError.no_request e)
  | none ↦ or_oauth_error OAuthError.no_response (web.perform request)
]

-- The body as it is shown in an error.
unfoldable pub error_content : Result String String → String
error_content (ok body) = body
error_content (err e) = ""

module _ {D : Type 0} (web : Web) (library : Library D) where
  unfoldable pub token_request : OAuthCredentials → Request
  token_request c = record {
    url = concat "https://" (concat c.auth_server_domain "/oauth/token");
    headers =
        ("Content-Type", "application/x-www-form-urlencoded")
        ∷ ("User-Agent", library.user_agent)
        ∷ [];
    body = library.encode_form (
        ("grant_type", "password")
        ∷ ("client_id", c.client_id)
        ∷ ("client_secret", c.client_secret)
        ∷ ("audience", "https://preflight.jetstack.io/api/v1")
        ∷ ("username", c.user_id)
        ∷ ("password", c.user_secret)
        ∷ []);
  }

  -- The token of a response.
  unfoldable pub granted : Response → Result OAuthError TokenResponse
  unfolding or_oauth_error is_success
  granted response = do
    body ← or_oauth_error OAuthError.not_read response.body
    if not (is_success response.status_code)
        then err (OAuthError.no_access_token response.status_code body)
        else (do
          token ← or_oauth_error OAuthError.not_parsed (library.unmarshal_token body)
          if eqb token.expires_in 0 then err OAuthError.wrong_expiration else ok token)

  unfoldable pub renew_access_token : ℕ → OAuthClient → Result OAuthError OAuthClient
  unfolding respond token_request granted seconds add_duration
  renew_access_token now c = do
    response ← respond web (token_request c.credentials)
    token ← granted response
    ok (record c {
      access_token = record {
        bearer = token.access_token;
        expiration_date = add_duration now (seconds token.expires_in);
      };
    })

  -- The client with the token that it returns.
  unfoldable pub get_valid_access_token : Clock → OAuthClient → Result OAuthError OAuthClient
  unfolding needs_renew renew_access_token
  get_valid_access_token clock c =
      if needs_renew c.access_token clock.checked then renew_access_token clock.renewed c else ok c

  -- No token is sent where it is empty.
  unfoldable pub authorization : String → List (String × String)
  authorization bearer =
      if is_set bearer then ("Authorization", concat "Bearer " bearer) ∷ [] else []

  unfoldable pub post_request : OAuthClient → String → String → Request
  unfolding full_url authorization
  post_request c path body = record {
    url = full_url c.base_url path;
    headers =
        ("Accept", "application/json")
        ∷ ("Content-Type", "application/json")
        ∷ ("User-Agent", library.user_agent)
        ∷ authorization c.access_token.bearer;
    body = body;
  }

  unfoldable pub checked_status : Response → Option OAuthError
  unfolding is_success error_content
  checked_status response =
      if is_success response.status_code
      then none
      else some (OAuthError.bad_status response.status_code (error_content response.body))

  unfoldable pub outcome : Result OAuthError Response → Option OAuthError
  unfolding checked_status
  outcome (err e) = some e
  outcome (ok response) = checked_status response

  -- The request with the token that the client has, if it has one.
  unfoldable pub post :
      Clock → String → String → OAuthClient → Result OAuthError Response × OAuthClient
  unfolding get_valid_access_token respond post_request
  post clock path body c = elim (get_valid_access_token clock c) [
    | err e ↦ (err e, c)
    | ok c' ↦ (respond web (post_request c' path body), c')
  ]

  unfoldable pub upload_path : String → String → String
  upload_path org_id cluster_id =
      library.join_path ("/api/v1/org" ∷ org_id ∷ "datareadings" ∷ cluster_id ∷ [])

  unfoldable pub payload : Clock → OAuthClient → List (DataReading D) → DataReadingsPost D
  payload clock c readings = record {
    agent_metadata = c.agent_metadata;
    data_gather_time = clock.gathered;
    data_readings = readings;
  }

  -- The error or nil, and the client.
  unfoldable pub post_data_readings :
      Clock → String → String → List (DataReading D) → OAuthClient → Option OAuthError × OAuthClient
  unfolding upload_path payload post outcome
  post_data_readings clock org_id cluster_id readings c =
      elim (library.marshal (payload clock c readings)) [
        | err e ↦ (some (OAuthError.not_marshalled e), c)
        | ok body ↦
            let (response, c') = post clock (upload_path org_id cluster_id) body c in
            (outcome response, c')
      ]

  unfoldable pub post_data_readings_with_options :
      Clock → List (DataReading D) → Options → OAuthClient → Option OAuthError × OAuthClient
  unfolding post_data_readings
  post_data_readings_with_options clock readings opts c =
      post_data_readings clock opts.org_id opts.cluster_id readings c
