-- ===== src/Clients/Ngts.antt =====
-- pkg/client/client_ngts.go: the upload to NGTS, with a bearer token that an assertion buys, as for Venafi
-- Cloud. The client id may stand in a file beside the private key.
pub mod Credentials
pub mod Grants
pub mod Uploads
use jetstack_secure.Prelude.{
  ℕ, ◌+◌, String, Bool, true, false, not, ◌&&◌, ◌||◌, Option, none, some, List, [], ◌∷◌, ◌++◌, ◌==◌,
  is_set, ltb, eqb, if◌then◌else◌,
}
use jetstack_secure.Prelude.Results.{Result, ok, err, ◌>>=◌, map_err}
use jetstack_secure.Prelude.Texts.{concat}
use jetstack_secure.Prelude.Int.{ℤ}
use jetstack_secure.Api.{DataReading, AgentMetadata, DataReadingsPost}
use jetstack_secure.CyberArk.Publish.{Options}
use jetstack_secure.Clients.Http.{Request, Response, Web, is_success, exchange}
use jetstack_secure.Clients.Instants.{signed_seconds, add_duration, minute, unix}
use jetstack_secure.Clients.Keys.{
  PrivateKey, SigningMethod, KeyParsers, KeyError, parse_private_key_and_extract_signing_method,
}
use jetstack_secure.Clients.VenafiCloud.{
  Library, Clock, AccessTokenInformation, access_token_endpoint, required_grant_type, prod_url,
}

abbrev pub ngts_upload_endpoint : String
ngts_upload_endpoint = "v1/tlspk/upload/clusterdata/no"

pub record NgtsServiceAccountCredentials : Type 0 where
  pub client_id : String
  pub private_key_file : String

pub record NgtsAccessToken : Type 0 where
  pub access_token : String
  pub expiration_time : ℕ

-- Over the type of parsed URLs.
pub record NgtsClient (Url : Type 0) : Type 0 where
  pub credentials : NgtsServiceAccountCredentials
  -- `none` is nil.
  pub access_token : Option NgtsAccessToken
  pub base_url : Url
  pub agent_metadata : AgentMetadata
  pub private_key : PrivateKey
  pub jwt_signing_alg : SigningMethod

pub data NgtsError : Type 0 where
  nil_credentials empty_client_id empty_private_key_file exclusive_urls no_url : NgtsError
  private_key : KeyError → NgtsError
  -- The URL that is asked for, and the error.
  invalid_base_url : String → String → NgtsError
  not_marshalled bad_url not_signed no_response not_read not_parsed : String → NgtsError
  api_failed bad_status : ℕ → String → NgtsError

-- The token, unless it is nil or expires within a minute.
unfoldable pub usable_token : Option NgtsAccessToken → ℕ → Option NgtsAccessToken
usable_token none now = none
usable_token (some t) now = if ltb t.expiration_time (now + minute) then none else some t

module _ {D : Type 0} (web : Web) (library : Library D) where
  unfoldable pub generate_and_sign_jwt_token :
      Clock → NgtsClient library.Url → Result NgtsError String
  unfolding unix
  generate_and_sign_jwt_token clock c = do
    prod ← map_err NgtsError.bad_url (library.parse_url prod_url)
    map_err NgtsError.not_signed (
        library.signed_string c.jwt_signing_alg c.private_key (record {
          sub = c.credentials.client_id;
          iss = c.credentials.client_id;
          iat = unix clock.issued;
          exp = unix (clock.expires + minute);
          aud = library.join_path (library.host prod ∷ access_token_endpoint ∷ []);
          jti = clock.jti;
        }))

  unfoldable pub form_request : String → String → Request
  form_request url encoded = record {
    url = url;
    headers =
        ("Content-Type", "application/x-www-form-urlencoded")
        ∷ ("Content-Length", library.printed_length encoded)
        ∷ ("User-Agent", library.user_agent)
        ∷ [];
    body = encoded;
  }

  unfoldable pub token_request : NgtsClient library.Url → String → Request
  unfolding form_request
  token_request c assertion =
      form_request (library.url_string (library.join_url c.base_url access_token_endpoint))
        (library.encode_form (("grant_type", required_grant_type) ∷ ("assertion", assertion) ∷ []))

  -- The body as it is shown in an error.
  unfoldable pub shown_body : Result String String → String
  shown_body (ok body) = body
  shown_body (err e) = ""

  unfoldable pub send_http_request : Request → Result NgtsError AccessTokenInformation
  unfolding exchange shown_body
  send_http_request request = do
    response ← map_err NgtsError.no_response (exchange web request)
    if not (eqb response.status_code 200) && not (eqb response.status_code 201)
        then err (NgtsError.api_failed response.status_code (shown_body response.body))
        else (do
          body ← map_err NgtsError.not_read response.body
          map_err NgtsError.not_parsed (library.unmarshal_token body))

  -- The new token, which the client then holds.
  unfoldable pub update_access_token :
      Clock → NgtsClient library.Url → Result NgtsError NgtsAccessToken
  unfolding generate_and_sign_jwt_token token_request send_http_request add_duration signed_seconds
  update_access_token clock c = do
    assertion ← generate_and_sign_jwt_token clock c
    information ← send_http_request (token_request c assertion)
    ok (record {
      access_token = information.access_token;
      expiration_time = add_duration clock.requested (signed_seconds information.expires_in);
    })

  unfoldable pub get_valid_access_token :
      Clock → NgtsClient library.Url → Result NgtsError NgtsAccessToken
  unfolding usable_token update_access_token
  get_valid_access_token clock c = elim (usable_token c.access_token clock.checked) [
    | some t ↦ ok t
    | none ↦ update_access_token clock c
  ]

  unfoldable pub authorization : String → List (String × String)
  authorization bearer =
      if is_set bearer then ("Authorization", concat "Bearer " bearer) ∷ [] else []

  unfoldable pub post_request : String → String → String → Request
  unfolding authorization
  post_request bearer url body = record {
    url = url;
    headers =
        ("Accept", "application/json")
        ∷ ("Content-Type", "application/json")
        ∷ ("User-Agent", library.user_agent)
        ∷ authorization bearer;
    body = body;
  }

  unfoldable pub checked_status : Result NgtsError Response → Option NgtsError
  unfolding is_success shown_body
  checked_status (err e) = some e
  checked_status (ok response) =
      if is_success response.status_code
      then none
      else some (NgtsError.bad_status response.status_code (shown_body response.body))

  -- The request with the token, and the client that holds the token.
  unfoldable pub send_with :
      NgtsClient library.Url
      → String
      → String
      → Result NgtsError NgtsAccessToken
      → Result NgtsError Response × NgtsClient library.Url
  unfolding exchange post_request
  send_with c path body (err e) = (err e, c)
  send_with c path body (ok t) = (
    map_err NgtsError.no_response (exchange web (post_request t.access_token path body)),
    record c { access_token = some t },
  )

  unfoldable pub post :
      Clock
      → String
      → String
      → NgtsClient library.Url
      → Result NgtsError Response × NgtsClient library.Url
  unfolding get_valid_access_token send_with
  post clock path body c = send_with c path body (get_valid_access_token clock c)

  unfoldable pub payload :
      Clock → NgtsClient library.Url → List (DataReading D) → DataReadingsPost D
  payload clock c readings = record {
    agent_metadata = c.agent_metadata;
    data_gather_time = clock.gathered;
    data_readings = readings;
  }

  unfoldable pub upload_query : Options → List (String × String)
  upload_query opts =
      (if is_set opts.cluster_name then ("name", library.sanitize opts.cluster_name) ∷ [] else [])
      ++ ((if is_set opts.cluster_description
            then ("description", library.base64_url (library.sanitize opts.cluster_description))
              ∷ []
            else [])
          ++ (if opts.claimable_certs then ("certOwnership", "unassigned") ∷ [] else []))

  unfoldable pub upload_url : NgtsClient library.Url → Options → String
  unfolding upload_query
  upload_url c opts =
      let url = library.join_url c.base_url ngts_upload_endpoint in
      library.with_query url (library.query url ++ upload_query opts)

  -- The error or nil, and the client.
  unfoldable pub post_data_readings_with_options :
      Clock
      → List (DataReading D)
      → Options
      → NgtsClient library.Url
      → Option NgtsError × NgtsClient library.Url
  unfolding payload upload_url post checked_status
  post_data_readings_with_options clock readings opts c =
      elim (library.marshal (payload clock c readings)) [
        | err e ↦ (some (NgtsError.not_marshalled e), c)
        | ok body ↦
            let (response, c') = post clock (upload_url c opts) body c in
            (checked_status response, c')
      ]
