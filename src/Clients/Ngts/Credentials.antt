-- ===== src/Clients/Ngts/Credentials.antt =====
-- pkg/client/client_ngts.go: the credentials, with the client id beside the private key, and the constructor.
use jetstack_secure.Prelude.{String, ◌&&◌, Option, none, some, ◌==◌, is_set, if◌then◌else◌}
use jetstack_secure.Prelude.Results.{Result, ok, err, ◌>>=◌, map_err}
use jetstack_secure.Prelude.Texts.{concat}
use jetstack_secure.Api.{AgentMetadata}
use jetstack_secure.Clients.Keys.{KeyParsers, parse_private_key_and_extract_signing_method}
use jetstack_secure.Clients.Ngts.{NgtsClient, NgtsError, NgtsServiceAccountCredentials}

-- `os.ReadFile`, `path.Dir` and `strings.TrimSpace`.
pub record Files : Type 0 where
  pub read_file : String → Result String String
  pub dir : String → String
  pub trim_space : String → String

-- The content of the first file that can be read.
unfoldable pub read_client_id : Files → String → Result String String
read_client_id files base_dir = elim (files.read_file (concat base_dir "/clientID")) [
  | ok bytes ↦ ok bytes
  | err e ↦ files.read_file (concat base_dir "/clientId")
]

unfoldable pub with_client_id :
    Files → NgtsServiceAccountCredentials → Result String String → NgtsServiceAccountCredentials
with_client_id files c (err e) = c
with_client_id files c (ok bytes) = record c { client_id = files.trim_space bytes }

-- `LoadClientIDIfNeeded`, of credentials that are not nil: it has no error.
unfoldable pub load_client_id_if_needed :
    Files → NgtsServiceAccountCredentials → NgtsServiceAccountCredentials
unfolding read_client_id with_client_id
load_client_id_if_needed files c =
    if is_set c.client_id
    then c
    else if c.private_key_file == ""
    then c
    else with_client_id files c (read_client_id files (files.dir c.private_key_file))

-- The error or nil.
unfoldable pub validate : NgtsServiceAccountCredentials → Option NgtsError
validate c =
    if c.client_id == ""
    then some NgtsError.empty_client_id
    else if c.private_key_file == ""
    then some NgtsError.empty_private_key_file
    else none

-- The error of the two URLs, or nil.
unfoldable pub check_urls : String → String → Option NgtsError
check_urls tsg_id base_url =
    if is_set tsg_id && is_set base_url
    then some NgtsError.exclusive_urls
    else if tsg_id == "" && base_url == ""
    then some NgtsError.no_url
    else none

unfoldable pub actual_base_url : String → String → String
actual_base_url tsg_id base_url =
    if base_url == ""
    then concat "https://" (concat tsg_id ".ngts.paloaltonetworks.com")
    else base_url

unfoldable pub or_none : Option NgtsError → Result NgtsError (Unit {0})
or_none none = ok tt
or_none (some e) = err e

module _ {Url : Type 0} (parse_url : String → Result String Url) (files : Files)
    (parsers : KeyParsers) where
  unfoldable pub new_loaded_client :
      AgentMetadata
      → NgtsServiceAccountCredentials
      → String
      → String
      → Result NgtsError (NgtsClient Url)
  unfolding validate check_urls or_none actual_base_url parse_private_key_and_extract_signing_method
  new_loaded_client metadata c base_url tsg_id = do
    valid ← or_none (validate c)
    urls ← or_none (check_urls tsg_id base_url)
    key ←
        map_err NgtsError.private_key
          (parse_private_key_and_extract_signing_method parsers c.private_key_file)
    url ←
        map_err (NgtsError.invalid_base_url base_url) (parse_url (actual_base_url tsg_id base_url))
    ok (record {
      credentials = c;
      access_token = some (record { access_token = ""; expiration_time = 0 });
      base_url = url;
      agent_metadata = metadata;
      private_key = key.0;
      jwt_signing_alg = key.1;
    })

  unfoldable pub new_ngts_client :
      AgentMetadata
      → Option NgtsServiceAccountCredentials
      → String
      → String
      → Result NgtsError (NgtsClient Url)
  unfolding load_client_id_if_needed new_loaded_client
  new_ngts_client metadata none base_url tsg_id = err NgtsError.nil_credentials
  new_ngts_client metadata (some c) base_url tsg_id =
      new_loaded_client metadata (load_client_id_if_needed files c) base_url tsg_id
