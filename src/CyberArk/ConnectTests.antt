-- ===== src/CyberArk/ConnectTests.antt =====
-- A snapshot that is published over small servers.
use jetstack_secure.Prelude.{◌≡◌, refl, true, [], ◌∷◌, ◌==◌, if◌then◌else◌}
use jetstack_secure.Prelude.Results.{ok, err}
use jetstack_secure.CyberArk.Publish.{PublishError}
use jetstack_secure.CyberArk.Snapshot.{default_extractor_functions}
use jetstack_secure.CyberArk.ServiceDiscovery.{Service, DiscoveryServer, DiscoveryClient}
use jetstack_secure.CyberArk.Connect.{
  Network, Clock, err_missing_environment_variables, new_discovery_client, publish,
}
use jetstack_secure.CyberArk.Connect.Published.{IsPublished, publish-IsPublished}
use jetstack_secure.CyberArk.Tests.{small_decoders, all_readings, options, uploaded_snapshot}
use jetstack_secure.CyberArk.LoginTests.{welcoming, password, identity_service}
use jetstack_secure.CyberArk.UploadTests.{server, library}

abbrev context_service : Service
context_service = record identity_service {
  service_name = "discoverycontext";
  endpoints = record { is_active = true; kind = "main"; ui = ""; api = "https://inventory" } ∷ [];
}

abbrev directory : DiscoveryServer
directory subdomain =
    ok (200, ok (record { tenant_id = "t1"; services = identity_service ∷ context_service ∷ [] }))

abbrev network : Network
network = record {
  getenv = λ name. if name == "ARK_USERNAME" then "ann" else "acme";
  directory = directory;
  identity_at = λ url. welcoming;
  posts = server;
  puts = server;
  library = library;
  bytes = λ secret. password;
  discovery_message = λ e. "discovery";
  identity_message = λ e. "identity";
  upload_message = λ e. "upload";
}

abbrev clock : Clock
clock = record {
  discovering = 4000000000000;
  discovered = 4000000000001;
  checked = 4000000000002;
  logged_in = 4000000000003;
}

unfoldable discovery_client : DiscoveryClient
unfolding new_discovery_client
discovery_client = new_discovery_client "acme"

publish_tests :
    ((publish network small_decoders clock all_readings options discovery_client).0
      ≡ ok uploaded_snapshot)
    × (publish
          (record network { getenv = λ name. "" })
          small_decoders
          clock
          []
          options
          discovery_client
        ≡ (err (PublishError.load_config err_missing_environment_variables), discovery_client))
unfolding publish discovery_client small_decoders uploaded_snapshot default_extractor_functions
publish_tests = (refl, refl)

publish-IsPublished_example :
    IsPublished network small_decoders clock all_readings discovery_client uploaded_snapshot
publish-IsPublished_example =
    publish-IsPublished network small_decoders clock all_readings options discovery_client
      uploaded_snapshot publish_tests.0
