-- ===== src/CyberArk/ServiceDiscovery.antt =====
-- internal/cyberark/servicediscovery/discovery.go: `DiscoverServices`, over the server's answers. The
-- answer to a request is its status code and its body, or why it cannot be decoded. The mutex makes one
-- call a single step.
pub mod Found
use jetstack_secure.Prelude.{
  ℕ, ◌+◌, String, Bool, true, false, not, ◌&&◌, Option, none, some, List, [], ◌∷◌, ◌==◌, eqb, ltb,
  is_set, if◌then◌else◌,
}
use jetstack_secure.Prelude.Results.{Result, ok, err, ◌>>=◌}

pub record ServiceEndpoint : Type 0 where
  pub is_active : Bool
  pub kind : String
  pub ui : String
  pub api : String

pub record Service : Type 0 where
  pub service_name : String
  pub service_subdomains : List String
  pub region : String
  pub endpoints : List ServiceEndpoint

-- The fields that are read.
pub record DiscoveryResponse : Type 0 where
  pub tenant_id : String
  pub services : List Service

pub record Services : Type 0 where
  pub identity : ServiceEndpoint
  pub discovery_context : ServiceEndpoint

pub data DiscoveryError : Type 0 where
  no_answer : String → DiscoveryError
  unknown_subdomain : String → DiscoveryError
  unexpected_status : ℕ → DiscoveryError
  not_parsed : String → DiscoveryError
  no_identity : DiscoveryError

-- The answer to the request for a subdomain.
abbrev pub DiscoveryServer : Type 0
DiscoveryServer = String → Result String (ℕ × Result String DiscoveryResponse)

pub record DiscoveryClient : Type 0 where
  pub subdomain : String
  pub cached_response : Option Services
  pub cached_tenant_id : String
  pub cached_response_time : ℕ

unfoldable pub is_usable : ServiceEndpoint → Bool
is_usable ep = ep.kind == "main" && ep.is_active && is_set ep.api

-- The loop over the endpoints of a service: the first one that is usable, or what was there before.
unfoldable pub main_api : String → List ServiceEndpoint → String
unfolding is_usable
main_api before [] = before
main_api before (ep ∷ eps) = let rest = main_api before eps in if is_usable ep then ep.api else rest

-- The loop over the services: the API of identity, and that of the discovery context.
unfoldable pub scan : String × String → List Service → String × String
unfolding main_api
scan found [] = found
scan (identity, context) (svc ∷ svcs) =
    if svc.service_name == "identity_administration"
    then scan (main_api identity svc.endpoints, context) svcs
    else if svc.service_name == "discoverycontext"
    then scan (identity, main_api context svc.endpoints) svcs
    else scan (identity, context) svcs

unfoldable pub decode :
    String → ℕ × Result String DiscoveryResponse → Result DiscoveryError DiscoveryResponse
decode subdomain (status, body) =
    if not (eqb status 200)
    then err (
        if eqb status 404
        then DiscoveryError.unknown_subdomain subdomain
        else DiscoveryError.unexpected_status status)
    else (elim body [ ok r ↦ ok r | err e ↦ err (DiscoveryError.not_parsed e) ])

unfoldable pub answered :
    Result String (ℕ × Result String DiscoveryResponse)
    → Result DiscoveryError (ℕ × Result String DiscoveryResponse)
answered (ok a) = ok a
answered (err e) = err (DiscoveryError.no_answer e)

abbrev pub endpoint_at : String → ServiceEndpoint
endpoint_at api = record { is_active = false; kind = ""; ui = ""; api = api }

-- The services of a response, with the tenant's id. There is no check of the discovery context.
unfoldable pub services_of : DiscoveryResponse → Result DiscoveryError (Services × String)
unfolding scan
services_of r =
    let (identity, context) = scan ("", "") r.services in
    if identity == ""
    then err DiscoveryError.no_identity
    else ok (
      record { identity = endpoint_at identity; discovery_context = endpoint_at context },
      r.tenant_id,
    )

unfoldable pub request_services :
    DiscoveryServer → String → Result DiscoveryError (Services × String)
unfolding answered decode services_of
request_services server subdomain = do
  answer ← answered (server subdomain)
  response ← decode subdomain answer
  services_of response

-- One hour.
abbrev pub response_lifetime : ℕ
response_lifetime = 3600000000000

unfoldable pub cached_services : DiscoveryClient → ℕ → Option Services
cached_services c now =
    if ltb now (c.cached_response_time + response_lifetime) then c.cached_response else none

unfoldable pub store_services :
    ℕ
    → DiscoveryClient
    → Result DiscoveryError (Services × String)
    → Result DiscoveryError (Services × String) × DiscoveryClient
store_services done c (ok (services, tenant)) = (
  ok (services, tenant),
  record c {
    cached_response = some services;
    cached_tenant_id = tenant;
    cached_response_time = done;
  },
)
store_services done c (err e) = (err e, c)

unfoldable pub discover_services :
    DiscoveryServer
    → ℕ
    → ℕ
    → DiscoveryClient
    → Result DiscoveryError (Services × String) × DiscoveryClient
unfolding cached_services store_services request_services
discover_services server now done c = elim (cached_services c now) [
  | some services ↦ (ok (services, c.cached_tenant_id), c)
  | none ↦ store_services done c (request_services server c.subdomain)
]
