-- ===== src/CyberArk/Connect.antt =====
-- internal/cyberark/client.go: the configuration from the environment, and `NewDatauploadClient`, which
-- logs in for the upload; and pkg/client/client_cyberark.go over both, with the service discovery and
-- `PutSnapshot`.
pub mod Published
use jetstack_secure.Prelude.{
  ℕ, String, ◌||◌, Option, none, some, List, [], ◌∷◌, ◌==◌, if◌then◌else◌,
}
use jetstack_secure.Prelude.Results.{Result, ok, err, map_err}
use jetstack_secure.Prelude.Texts.{concat}
use jetstack_secure.Clients.Http.{Request, Web}
use jetstack_secure.CyberArk.Snapshot.{Snapshot, DataReading}
use jetstack_secure.CyberArk.Minimize.{Decoders}
use jetstack_secure.CyberArk.Publish.{
  Options, Publisher, PublishError, post_data_readings_with_options,
}
use jetstack_secure.CyberArk.ServiceDiscovery.{
  DiscoveryServer, DiscoveryClient, DiscoveryError, Services, discover_services,
}
use jetstack_secure.CyberArk.Identity.{
  Server, Client, IdentityError, login_username_password, authenticate_request,
}
use jetstack_secure.CyberArk.Upload.{CyberArkClient, Library, UploadError, put_snapshot}

pub record ClientConfig : Type 0 where
  pub subdomain : String
  pub username : String
  pub secret : String

abbrev pub err_missing_environment_variables : String
err_missing_environment_variables =
    "missing environment variables: ARK_SUBDOMAIN, ARK_USERNAME, ARK_SECRET"

-- Over `os.Getenv`.
unfoldable pub load_client_config_from_environment : (String → String) → Result String ClientConfig
load_client_config_from_environment getenv =
    let subdomain = getenv "ARK_SUBDOMAIN" in
    let username = getenv "ARK_USERNAME" in
    let secret = getenv "ARK_SECRET" in
    if subdomain == "" || (username == "" || secret == "")
    then err err_missing_environment_variables
    else ok (record { subdomain = subdomain; username = username; secret = secret })

-- `identity.New`: no token is cached.
unfoldable pub new_identity_client : String → Client
new_identity_client subdomain = record {
  subdomain = subdomain;
  token_cached = record { username = ""; token = "" };
  token_cached_time = 0;
}

-- `servicediscovery.New`, without its URL, which is the server's: nothing is cached.
unfoldable pub new_discovery_client : String → DiscoveryClient
new_discovery_client subdomain = record {
  subdomain = subdomain;
  cached_response = none;
  cached_tenant_id = "";
  cached_response_time = 0;
}

-- `AuthenticateRequest`, with the user's name and the request.
unfoldable pub authenticated_by : Client → Request → Result String (String × Request)
unfolding authenticate_request
authenticated_by c request = elim (authenticate_request c) [
  | none ↦ err "no token cached"
  | some token ↦ ok (
    c.token_cached.username,
    record request { headers = ("Authorization", concat "Bearer " token) ∷ request.headers },
  )
]

-- The environment, the servers and the packages of the standard library: `[]byte` of a string, the text of
-- an error.
pub record Network : Type 0 where
  pub getenv : String → String
  pub directory : DiscoveryServer
  -- The identity service at a URL.
  pub identity_at : String → Server
  pub posts : Web
  pub puts : Web
  pub library : Library
  pub bytes : String → List ℕ
  pub discovery_message : DiscoveryError → String
  pub identity_message : IdentityError → String
  pub upload_message : UploadError → String

-- The instants at which the calls of an upload start and end.
pub record Clock : Type 0 where
  pub discovering : ℕ
  pub discovered : ℕ
  pub checked : ℕ
  pub logged_in : ℕ

unfoldable pub upload_error : (UploadError → String) → Result UploadError (Unit {0}) → Option String
upload_error message (ok done) = none
upload_error message (err e) = some (message e)

module _ (network : Network) where
  -- `dataupload.New`.
  unfoldable pub new_cyber_ark_client : String → String → Client → CyberArkClient
  unfolding authenticated_by
  new_cyber_ark_client base_url tenant_uuid identity_client = record {
    posts = network.posts;
    puts = network.puts;
    base_url = base_url;
    tenant_uuid = tenant_uuid;
    authenticate_request = authenticated_by identity_client;
  }

  unfoldable pub client_after_login :
      String → String → Option IdentityError × Client → Result String CyberArkClient
  unfolding new_cyber_ark_client
  client_after_login discovery_api tenant_uuid (some e, c) = err (network.identity_message e)
  client_after_login discovery_api tenant_uuid (none, c) =
      ok (new_cyber_ark_client discovery_api tenant_uuid c)

  unfoldable pub new_dataupload_client :
      Clock → Services × String → ClientConfig → Result String CyberArkClient
  unfolding client_after_login login_username_password new_identity_client
  new_dataupload_client clock (service_map, tenant_uuid) cfg =
      if service_map.identity.api == ""
      then err "service discovery returned an empty identity API"
      else if service_map.discovery_context.api == ""
      then err "service discovery returned an empty discovery API"
      else client_after_login service_map.discovery_context.api tenant_uuid
          (login_username_password (network.identity_at service_map.identity.api) clock.checked
            clock.logged_in (new_identity_client cfg.subdomain) cfg.username
            (network.bytes cfg.secret)).0

  -- The upload's `CyberArkClient`, which holds the client of the service discovery.
  unfoldable pub publisher_of : Clock → DiscoveryClient → Publisher
  unfolding load_client_config_from_environment discover_services new_dataupload_client put_snapshot
      upload_error
  publisher_of clock discovery_client = record {
    ClientConfig = ClientConfig;
    Services = Services × String;
    UploadClient = CyberArkClient;
    version = network.library.preflight_version;
    load_config = load_client_config_from_environment network.getenv;
    discover_services =
        map_err network.discovery_message
          (discover_services network.directory clock.discovering clock.discovered
            discovery_client).0;
    new_upload_client = new_dataupload_client clock;
    put_snapshot = λ client snapshot.
        upload_error network.upload_message (put_snapshot client network.library snapshot);
  }

  unfoldable pub discovery_client_after :
      Clock → DiscoveryClient → Result String ClientConfig → DiscoveryClient
  unfolding discover_services
  discovery_client_after clock discovery_client (err e) = discovery_client
  discovery_client_after clock discovery_client (ok cfg) =
      (discover_services network.directory clock.discovering clock.discovered discovery_client).1

  -- The snapshot that was uploaded or the error, and the client of the service discovery.
  unfoldable pub publish :
      Decoders
      → Clock
      → List DataReading
      → Options
      → DiscoveryClient
      → Result PublishError Snapshot × DiscoveryClient
  unfolding publisher_of discovery_client_after post_data_readings_with_options
  publish decoders clock readings opts discovery_client = (
    post_data_readings_with_options decoders (publisher_of clock discovery_client) readings opts,
    discovery_client_after clock discovery_client
        (load_client_config_from_environment network.getenv),
  )

  -- `NewCyberArk`.
  unfoldable pub new_cyber_ark : Result String DiscoveryClient
  unfolding load_client_config_from_environment new_discovery_client
  new_cyber_ark = elim (load_client_config_from_environment network.getenv) [
    | err e ↦ err e
    | ok cfg ↦ ok (new_discovery_client cfg.subdomain)
  ]
