-- ===== src/Clients/Oauth/Credentials.antt =====
-- pkg/client/client_oauth.go: the credentials, and the constructor.
use jetstack_secure.Prelude.{
  String, not, Option, none, some, List, [], ◌∷◌, ◌++◌, ◌==◌, if◌then◌else◌,
}
use jetstack_secure.Prelude.Results.{Result, ok, err}
use jetstack_secure.Prelude.Lists.{is_empty}
use jetstack_secure.Api.{AgentMetadata}
use jetstack_secure.Clients.Oauth.{BuildVariables, OAuthClient, OAuthCredentials, OAuthError}

-- The errors that are collected; none is nil. `none` stands for the nil pointer.
unfoldable pub validate : Option OAuthCredentials → List OAuthError
validate none = OAuthError.nil_credentials ∷ []
validate (some c) =
    (if c.user_id == "" then OAuthError.empty_user_id ∷ [] else [])
    ++ (if c.user_secret == "" then OAuthError.empty_user_secret ∷ [] else [])

-- `some` of why the client is not set.
unfoldable pub is_client_set : OAuthCredentials → Option String
is_client_set c =
    if c.client_id == ""
    then some "ClientID is empty"
    else if c.client_secret == ""
    then some "ClientSecret is empty"
    else if c.auth_server_domain == ""
    then some "AuthServerDomain is empty"
    else none

-- The credentials, with those of the build where the client is not set.
unfoldable pub with_defaults : BuildVariables → OAuthCredentials → OAuthCredentials
unfolding is_client_set
with_defaults build c = elim (is_client_set c) [
  | none ↦ c
  | some why ↦ record c {
    client_id = build.client_id;
    client_secret = build.client_secret;
    auth_server_domain = build.auth_server_domain;
  }
]

-- The client, unless some of its credentials are missing.
unfoldable pub with_client :
    AgentMetadata → String → OAuthCredentials → Result (List OAuthError) OAuthClient
unfolding is_client_set
with_client metadata base_url c = elim (is_client_set c) [
  | some why ↦ err (OAuthError.client_not_set why ∷ [])
  | none ↦ ok (record {
    credentials = c;
    access_token = record { bearer = ""; expiration_date = 0 };
    base_url = base_url;
    agent_metadata = metadata;
  })
]

unfoldable pub new_oauth_client :
    BuildVariables
    → AgentMetadata
    → Option OAuthCredentials
    → String
    → Result (List OAuthError) OAuthClient
unfolding validate with_defaults with_client
new_oauth_client build metadata none base_url = err (validate none)
new_oauth_client build metadata (some c) base_url =
    if not (is_empty (validate (some c)))
    then err (validate (some c))
    else if base_url == ""
    then err (OAuthError.empty_base_url ∷ [])
    else with_client metadata base_url (with_defaults build c)

-- `ParseOAuthCredentials`, over the JSON decoding.
unfoldable pub parse_oauth_credentials :
    (String → Result String OAuthCredentials) → String → Result (List OAuthError) OAuthCredentials
unfolding validate
parse_oauth_credentials unmarshal bytes = elim (unmarshal bytes) [
  | err e ↦ err (OAuthError.not_parsed e ∷ [])
  | ok c ↦ if is_empty (validate (some c)) then ok c else err (validate (some c))
]
