-- ===== src/Gatherers/Tests.antt =====
-- Small answers of an API server.
use jetstack_secure.Prelude.{String, ◌≡◌, refl, none, some, [], ◌∷◌, ◌==◌, false, if◌then◌else◌}
use jetstack_secure.Prelude.Results.{ok, err}
use jetstack_secure.Prelude.Int.{pos, negsuc}
use jetstack_secure.Gatherers.Oidc.{
  ApiServer, RequestError, OidcDiscoveryData, fetch_oidc, string_first_n,
}
use jetstack_secure.Gatherers.Oidc.Reported.{IsReported, fetch_oidc-IsReported}
use jetstack_secure.Gatherers.Discovery.{
  Kube, new_discovery_gatherer, fetch_discovery, new_local_gatherer, fetch_local,
}

abbrev server : ApiServer String
server = record {
  get = λ path.
      if path == "/openid/v1/jwks"
      then err (RequestError.api_status "Forbidden" "no access" "forbidden")
      else ok (123 ∷ 125 ∷ []);
  unmarshal = λ bytes. ok (some "{}");
  contains = λ text part. false;
  host = λ url. none;
  quoted = λ bytes. "raw";
}

fetch_test :
    fetch_oidc server
    ≡ ok (
      record {
        oidc_config = some "{}";
        oidc_config_error = "";
        jwks = none;
        jwks_error = "failed to get /openid/v1/jwks: Error from server (Forbidden): forbidden";
      },
      pos 1,
    )
unfolding fetch_oidc
fetch_test = refl

string_first_n_test : string_first_n (1 ∷ 2 ∷ 3 ∷ []) 2 ≡ 1 ∷ 2 ∷ []
unfolding string_first_n
string_first_n_test = refl

fetch_oidc-IsReported_example :
    (result : OidcDiscoveryData String) × (fetch_oidc server ≡ ok (result, pos 1))
    × IsReported server "/.well-known/openid-configuration" result.oidc_config
        result.oidc_config_error
    × IsReported server "/openid/v1/jwks" result.jwks result.jwks_error
fetch_oidc-IsReported_example = fetch_oidc-IsReported server

abbrev kube : Kube String
kube = record {
  DiscoveryClient = String;
  ClientSet = String;
  new_discovery_client = λ path. ok "client";
  new_client_set = λ path. ok "clientset";
  namespace_uid = λ cs name. ok "u1";
  server_version = λ cl. err "timeout";
}

discovery_tests :
    (new_discovery_gatherer kube "" ≡ ok (record { cl = "client"; cluster_id = "u1" }))
    × (fetch_discovery kube (record { cl = "client"; cluster_id = "u1" })
        ≡ err "failed to get server version: timeout")
unfolding new_discovery_gatherer fetch_discovery
discovery_tests = (refl, refl)

local_tests :
    (new_local_gatherer "" ≡ err "invalid configuration: DataPath cannot be empty")
    × (fetch_local (λ path. ok path) "data.json" ≡ ok ("data.json", negsuc 0))
unfolding new_local_gatherer fetch_local
local_tests = (refl, refl)
