-- ===== src/Clients/VenafiCloud/Credentials.antt =====
-- pkg/client/client_venafi_cloud.go: the credentials of a service account, and the constructor.
use jetstack_secure.Prelude.{
  String, not, Option, none, some, List, [], ◌∷◌, ◌++◌, ◌==◌, if◌then◌else◌,
}
use jetstack_secure.Prelude.Results.{Result, ok, err, ◌>>=◌, map_err}
use jetstack_secure.Prelude.Lists.{is_empty}
use jetstack_secure.Api.{AgentMetadata}
use jetstack_secure.Clients.Keys.{
  PrivateKey, SigningMethod, KeyParsers, parse_private_key_and_extract_signing_method,
}
use jetstack_secure.Clients.VenafiCloud.{
  VenafiCloudClient, VenafiError, VenafiSvcAccountCredentials, default_upload_endpoint,
}

unfoldable pub validate : Option VenafiSvcAccountCredentials → List VenafiError
validate none = VenafiError.nil_credentials ∷ []
validate (some c) =
    (if c.client_id == "" then VenafiError.empty_client_id ∷ [] else [])
    ++ (if c.private_key_file == "" then VenafiError.empty_private_key_file ∷ [] else [])

-- `some` of why the client is not set.
unfoldable pub is_client_set : VenafiSvcAccountCredentials → Option String
is_client_set c =
    if c.client_id == ""
    then some "ClientID is empty"
    else if c.private_key_file == ""
    then some "PrivateKeyFile is empty"
    else none

-- `ParseVenafiCredentials`, over the JSON decoding.
unfoldable pub parse_venafi_credentials :
    (String → Result String VenafiSvcAccountCredentials)
    → String
    → Result (List VenafiError) VenafiSvcAccountCredentials
unfolding validate
parse_venafi_credentials unmarshal bytes = elim (unmarshal bytes) [
  | err e ↦ err (VenafiError.not_parsed e ∷ [])
  | ok c ↦ if is_empty (validate (some c)) then ok c else err (validate (some c))
]

unfoldable pub new_client :
    AgentMetadata
    → VenafiSvcAccountCredentials
    → String
    → String
    → String
    → PrivateKey × SigningMethod
    → Result (List VenafiError) VenafiCloudClient
unfolding is_client_set
new_client metadata c base_url uploader_id upload_path (key, signing) =
    if base_url == "" then err (VenafiError.empty_base_url ∷ []) else (elim (is_client_set c) [
      | some why ↦ err (VenafiError.client_not_set why ∷ [])
      | none ↦ ok (record {
        credentials = c;
        access_token = some (record { access_token = ""; expiration_time = 0 });
        base_url = base_url;
        agent_metadata = metadata;
        uploader_id = uploader_id;
        upload_path = if upload_path == "" then default_upload_endpoint else upload_path;
        private_key = key;
        jwt_signing_alg = signing;
      })
    ])

unfoldable pub new_venafi_cloud_client :
    KeyParsers
    → AgentMetadata
    → Option VenafiSvcAccountCredentials
    → String
    → String
    → String
    → Result (List VenafiError) VenafiCloudClient
unfolding validate new_client parse_private_key_and_extract_signing_method
new_venafi_cloud_client parsers metadata none base_url uploader_id upload_path = err (validate none)
new_venafi_cloud_client parsers metadata (some c) base_url uploader_id upload_path =
    if not (is_empty (validate (some c)))
    then err (validate (some c))
    else map_err (λ e. VenafiError.private_key e ∷ [])
        (parse_private_key_and_extract_signing_method parsers c.private_key_file)
      >>= new_client metadata c base_url uploader_id upload_path
