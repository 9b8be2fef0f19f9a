-- ===== src/Clients/VenafiCloud.antt =====
-- pkg/client/client_venafi_cloud.go: the upload with a bearer token that an assertion, signed with the
-- private key of a service account, buys.
pub mod Credentials
pub mod Grants
pub mod Uploads
use jetstack_secure.Prelude.{
  ℕ, ◌+◌, String, Bool, true, false, not, ◌&&◌, ◌||◌, Option, none, some, List, [], ◌∷◌, ◌++◌, ◌==◌,
  is_set, ltb, eqb, if◌then◌else◌,
}
use jetstack_secure.Prelude.Results.{Result, ok, err, ◌>>=◌, map_err}
use jetstack_secure.Prelude.Texts.{concat}
use jetstack_secure.Prelude.Lists.{is_empty}
use jetstack_secure.Prelude.Int.{ℤ}
use jetstack_secure.Api.{DataReading, AgentMetadata, DataReadingsPost}
use jetstack_secure.CyberArk.Publish.{Options}
use jetstack_secure.Clients.Http.{
  Request, Response, Web, is_success, full_url, exchange, ends_in_slash,
}
use jetstack_secure.Clients.Instants.{signed_seconds, add_duration, minute, unix}
use jetstack_secure.Clients.Keys.{
  PrivateKey, SigningMethod, KeyParsers, KeyError, parse_private_key_and_extract_signing_method,
}

abbrev pub default_upload_endpoint : String
default_upload_endpoint = "v1/tlspk/uploads"

abbrev pub access_token_endpoint : String
access_token_endpoint = "/v1/oauth/token/serviceaccount"

abbrev pub required_grant_type : String
required_grant_type = "urn:ietf:params:oauth:grant-type:jwt-bearer"

abbrev pub prod_url : String
prod_url = "https://api.venafi.cloud"

pub record VenafiSvcAccountCredentials : Type 0 where
  pub client_id : String
  pub private_key_file : String

pub record VenafiCloudAccessToken : Type 0 where
  pub access_token : String
  pub expiration_time : ℕ

pub record AccessTokenInformation : Type 0 where
  pub access_token : String
  pub token_type : String
  pub expires_in : ℤ

pub record VenafiCloudClient : Type 0 where
  pub credentials : VenafiSvcAccountCredentials
  -- `none` is nil.
  pub access_token : Option VenafiCloudAccessToken
  pub base_url : String
  pub agent_metadata : AgentMetadata
  pub uploader_id : String
  pub upload_path : String
  pub private_key : PrivateKey
  pub jwt_signing_alg : SigningMethod

pub data VenafiError : Type 0 where
  nil_credentials empty_client_id empty_private_key_file empty_base_url : VenafiError
  client_not_set : String → VenafiError
  private_key : KeyError → VenafiError
  not_marshalled bad_url not_signed no_response not_read not_parsed : String → VenafiError
  control_plane bad_status : ℕ → String → VenafiError

-- The claims of an assertion.
pub record Claims : Type 0 where
  pub sub : String
  pub iss : String
  pub iat : ℕ
  pub exp : ℕ
  pub aud : String
  pub jti : String

-- Packages net/url, path, encoding/json, encoding/base64, bluemonday and jwt. `with_query` sets the query of
-- a URL and prints it.
pub record Library (D : Type 0) : Type 1 where
  pub Url : Type 0
  pub parse_url : String → Result String Url
  pub query : Url → List (String × String)
  pub with_query : Url → List (String × String) → String
  pub host : Url → String
  pub join_url : Url → String → Url
  pub url_string : Url → String
  pub join_path : List String → String
  pub encode_form : List (String × String) → String
  -- `strconv.Itoa` of the length.
  pub printed_length : String → String
  pub marshal : DataReadingsPost D → Result String String
  pub unmarshal_token : String → Result String AccessTokenInformation
  pub sanitize : String → String
  pub base64_url : String → String
  pub signed_string : SigningMethod → PrivateKey → Claims → Result String String
  pub user_agent : String

-- When a post gathers its data, tests the token, makes the two times of the assertion and asks for a new
-- token, and the identifier that it draws.
pub record Clock : Type 0 where
  pub gathered : ℕ
  pub checked : ℕ
  pub issued : ℕ
  pub expires : ℕ
  pub requested : ℕ
  pub jti : String

-- The token, unless it is nil or expires within a minute.
unfoldable pub usable_token : Option VenafiCloudAccessToken → ℕ → Option VenafiCloudAccessToken
usable_token none now = none
usable_token (some t) now = if ltb t.expiration_time (now + minute) then none else some t

module _ {D : Type 0} (web : Web) (library : Library D) where
  unfoldable pub generate_and_sign_jwt_token : Clock → VenafiCloudClient → Result VenafiError String
  unfolding unix
  generate_and_sign_jwt_token clock c = do
    prod ← map_err VenafiError.bad_url (library.parse_url prod_url)
    map_err VenafiError.not_signed (
        library.signed_string c.jwt_signing_alg c.private_key (record {
          sub = c.credentials.client_id;
          iss = c.credentials.client_id;
          iat = unix clock.issued;
          exp = unix (clock.expires + minute);
          aud = library.join_path (library.host prod ∷ access_token_endpoint ∷ []);
          jti = clock.jti;
        }))

  unfoldable pub form_request : String → String → Request
  form_request url encoded = record {
    url = url;
    headers =
        ("Content-Type", "application/x-www-form-urlencoded")
        ∷ ("Content-Length", library.printed_length encoded)
        ∷ ("User-Agent", library.user_agent)
        ∷ [];
    body = encoded;
  }

  unfoldable pub token_request : VenafiCloudClient → String → Request
  unfolding form_request full_url
  token_request c assertion =
      form_request (full_url c.base_url access_token_endpoint)
        (library.encode_form (("grant_type", required_grant_type) ∷ ("assertion", assertion) ∷ []))

  -- The body as it is shown in an error.
  unfoldable pub shown_body : Result String String → String
  shown_body (ok body) = body
  shown_body (err e) = ""

  unfoldable pub send_http_request : Request → Result VenafiError AccessTokenInformation
  unfolding exchange shown_body
  send_http_request request = do
    response ← map_err VenafiError.no_response (exchange web request)
    if not (eqb response.status_code 200) && not (eqb response.status_code 201)
        then err (VenafiError.control_plane response.status_code (shown_body response.body))
        else (do
          body ← map_err VenafiError.not_read response.body
          map_err VenafiError.not_parsed (library.unmarshal_token body))

  -- The new token, which the client then holds.
  unfoldable pub update_access_token :
      Clock → VenafiCloudClient → Result VenafiError VenafiCloudAccessToken
  unfolding generate_and_sign_jwt_token token_request send_http_request add_duration signed_seconds
  update_access_token clock c = do
    assertion ← generate_and_sign_jwt_token clock c
    information ← send_http_request (token_request c assertion)
    ok (record {
      access_token = information.access_token;
      expiration_time = add_duration clock.requested (signed_seconds information.expires_in);
    })

  unfoldable pub get_valid_access_token :
      Clock → VenafiCloudClient → Result VenafiError VenafiCloudAccessToken
  unfolding usable_token update_access_token
  get_valid_access_token clock c = elim (usable_token c.access_token clock.checked) [
    | some t ↦ ok t
    | none ↦ update_access_token clock c
  ]

  unfoldable pub authorization : String → List (String × String)
  authorization bearer =
      if is_set bearer then ("Authorization", concat "Bearer " bearer) ∷ [] else []

  unfoldable pub post_request : VenafiCloudClient → String → String → String → Request
  unfolding full_url authorization
  post_request c bearer path body = record {
    url = full_url c.base_url path;
    headers =
        ("Accept", "application/json")
        ∷ ("Content-Type", "application/json")
        ∷ ("User-Agent", library.user_agent)
        ∷ authorization bearer;
    body = body;
  }

  unfoldable pub checked_status : Result VenafiError Response → Option VenafiError
  unfolding is_success shown_body
  checked_status (err e) = some e
  checked_status (ok response) =
      if is_success response.status_code
      then none
      else some (VenafiError.bad_status response.status_code (shown_body response.body))

  -- The request with the token, and the client that holds the token.
  unfoldable pub send_with :
      VenafiCloudClient
      → String
      → String
      → Result VenafiError VenafiCloudAccessToken
      → Result VenafiError Response × VenafiCloudClient
  unfolding exchange post_request
  send_with c path body (err e) = (err e, c)
  send_with c path body (ok t) = (
    map_err VenafiError.no_response (exchange web (post_request c t.access_token path body)),
    record c { access_token = some t },
  )

  unfoldable pub post :
      Clock → String → String → VenafiCloudClient → Result VenafiError Response × VenafiCloudClient
  unfolding get_valid_access_token send_with
  post clock path body c = send_with c path body (get_valid_access_token clock c)

  unfoldable pub payload : Clock → VenafiCloudClient → List (DataReading D) → DataReadingsPost D
  payload clock c readings = record {
    agent_metadata = c.agent_metadata;
    data_gather_time = clock.gathered;
    data_readings = readings;
  }

  -- The upload path is given a slash at its end, once and for all.
  unfoldable pub with_slash : VenafiCloudClient → VenafiCloudClient
  unfolding ends_in_slash
  with_slash c = record c {
    upload_path = if ends_in_slash c.upload_path then c.upload_path else concat c.upload_path "/";
  }

  unfoldable pub upload_query : Options → List (String × String)
  upload_query opts =
      (if is_set opts.cluster_name then ("name", library.sanitize opts.cluster_name) ∷ [] else [])
      ++ (if is_set opts.cluster_description
          then ("description", library.base64_url (library.sanitize opts.cluster_description)) ∷ []
          else [])

  unfoldable pub upload_url : VenafiCloudClient → Options → Result VenafiError String
  unfolding upload_query
  upload_url c opts = do
    url ←
        map_err VenafiError.bad_url
          (library.parse_url (library.join_path (c.upload_path ∷ c.uploader_id ∷ [])))
    ok (library.with_query url (library.query url ++ upload_query opts))

  -- The upload of the marshalled readings, by a client whose path ends in a slash.
  unfoldable pub upload :
      Clock → Options → String → VenafiCloudClient → Option VenafiError × VenafiCloudClient
  unfolding upload_url post checked_status
  upload clock opts body c = elim (upload_url c opts) [
    | err e ↦ (some e, c)
    | ok url ↦ let (response, c') = post clock url body c in (checked_status response, c')
  ]

  -- The error or nil, and the client.
  unfoldable pub post_data_readings_with_options :
      Clock
      → List (DataReading D)
      → Options
      → VenafiCloudClient
      → Option VenafiError × VenafiCloudClient
  unfolding payload with_slash upload
  post_data_readings_with_options clock readings opts c =
      elim (library.marshal (payload clock c readings)) [
        | err e ↦ (some (VenafiError.not_marshalled e), c)
        | ok body ↦ upload clock opts body (with_slash c)
      ]
