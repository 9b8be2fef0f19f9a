-- ===== src/Gatherers/Oidc.antt =====
-- pkg/datagatherer/oidc/oidc.go: the discovery document and the key set of the API server, each with the
-- error that came in its place.
pub mod Reported
use jetstack_secure.Prelude.{
  ℕ, String, Bool, true, false, Option, none, some, List, [], ◌∷◌, ◌==◌, is_set, leb, if◌then◌else◌,
}
use jetstack_secure.Prelude.Results.{Result, ok, err, ◌>>=◌, map_err}
use jetstack_secure.Prelude.Lists.{length, take}
use jetstack_secure.Prelude.Texts.{concat}
use jetstack_secure.Prelude.Int.{ℤ, pos}

-- The types of error that the code tells apart, with the text of the error: a status of the API (its
-- reason and its message), an unexpected object, an error of package url (its URL and the text of the
-- error in it), or another one.
pub data RequestError : Type 0 where
  api_status : String → String → String → RequestError
  unexpected_object : String → RequestError
  url_error : String → String → RequestError
  other_error : String → RequestError

-- The REST client and package json, over the type of a JSON object; `none` is a nil map. `contains` is
-- `strings.Contains`, `host` is of package url, and `quoted` is the verb `%q`.
pub record ApiServer (J : Type 0) : Type 0 where
  pub get : String → Result RequestError (List ℕ)
  pub unmarshal : List ℕ → Result String (Option J)
  pub contains : String → String → Bool
  pub host : String → Option String
  pub quoted : List ℕ → String

-- `api.OIDCDiscoveryData`.
pub record OidcDiscoveryData (J : Type 0) : Type 0 where
  pub oidc_config : Option J
  pub oidc_config_error : String
  pub jwks : Option J
  pub jwks_error : String

unfoldable pub string_first_n : List ℕ → ℕ → List ℕ
string_first_n s n = if leb (length s) n then s else take n s

unfoldable pub host_or : Option String → String → String
host_or none url = url
host_or (some host) url = host

module _ {J : Type 0} (server : ApiServer J) where
  unfoldable pub k8s_error_message : RequestError → String
  unfolding host_or
  k8s_error_message (RequestError.api_status reason message text) =
      if reason == "Unauthorized"
      then concat "error: You must be logged in to the server (" (concat message ")")
      else if is_set reason
      then concat "Error from server (" (concat reason (concat "): " text))
      else concat "Error from server: " text
  k8s_error_message (RequestError.unexpected_object text) =
      concat "Server returned an unexpected response: " text
  k8s_error_message (RequestError.url_error url text) =
      if server.contains text "connection refused"
      then concat "The connection to the server " (
          concat (host_or (server.host url) url)
            " was refused - did you specify the right host or port?")
      else concat "Unable to connect to the server: " text
  k8s_error_message (RequestError.other_error text) = concat "error: " text

  unfoldable pub unmarshal_message : String → List ℕ → String → String
  unfolding string_first_n
  unmarshal_message document bytes e = concat "failed to unmarshal " (
      concat document (
        concat ": "
          (concat e (concat " (raw: " (concat (server.quoted (string_first_n bytes 80)) ")")))))

  -- The request for a document and its decoding.
  unfoldable pub fetch_document : String → String → Result String (Option J)
  unfolding k8s_error_message unmarshal_message
  fetch_document path document = do
    bytes ←
        map_err (λ e. concat "failed to get " (concat path (concat ": " (k8s_error_message e))))
          (server.get path)
    map_err (unmarshal_message document bytes) (server.unmarshal bytes)

  unfoldable pub fetch_oidc_config : Result String (Option J)
  unfolding fetch_document
  fetch_oidc_config = fetch_document "/.well-known/openid-configuration" "OIDC discovery document"

  unfoldable pub fetch_jwks : Result String (Option J)
  unfolding fetch_document
  fetch_jwks = fetch_document "/openid/v1/jwks" "JWKS response"

  -- The response, or nil where there is an error.
  unfoldable pub response_of : Result String (Option J) → Option J
  response_of (ok response) = response
  response_of (err e) = none

  unfoldable pub err_to_string : Result String (Option J) → String
  err_to_string (ok response) = ""
  err_to_string (err e) = e

  unfoldable pub fetch_oidc : Result String (OidcDiscoveryData J × ℤ)
  unfolding fetch_oidc_config fetch_jwks response_of err_to_string
  fetch_oidc = ok (
    record {
      oidc_config = response_of fetch_oidc_config;
      oidc_config_error = err_to_string fetch_oidc_config;
      jwks = response_of fetch_jwks;
      jwks_error = err_to_string fetch_jwks;
    },
    pos 1,
  )
