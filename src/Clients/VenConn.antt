-- ===== src/Clients/VenConn.antt =====
-- pkg/client/client_venconn.go: the upload with the token of a VenafiConnection resource, over the handler of
-- venafi-connection-lib.
pub mod Uploads
use jetstack_secure.Prelude.{
  ℕ, String, Bool, true, false, ◌&&◌, Option, none, some, List, [], ◌∷◌, ◌++◌, ◌==◌, is_set,
  if◌then◌else◌,
}
use jetstack_secure.Prelude.Results.{Result, ok, err, ◌>>=◌, map_err}
use jetstack_secure.Prelude.Texts.{concat}
use jetstack_secure.Api.{DataReading, AgentMetadata, DataReadingsPost}
use jetstack_secure.CyberArk.Publish.{Options}
use jetstack_secure.Clients.Http.{Request, Response, Web, is_success, full_url}
use jetstack_secure.Clients.VenafiCloud.{Library}

-- `connection_details`: the ways to authenticate, and what `ServerDetails` and `Credential` give.
pub data BackendAuth : Type 0 where
  vcp_access_token ngts_access_token tpp_access_token : BackendAuth
  distributed_issuer_access_token vcp_api_key : BackendAuth
  other_auth : String → BackendAuth

pub record ConnectionDetails : Type 0 where
  pub backend_auth : BackendAuth
  pub base_url : String
  pub credential : String

-- `Get` of the handler: the namespace of the agent, and that of the resource with its name.
abbrev pub ConnectionHandler : Type 0
ConnectionHandler = String → String → String → Result String ConnectionDetails

pub record VenConnClient : Type 0 where
  pub agent_metadata : AgentMetadata
  pub conn_handler : ConnectionHandler
  pub install_ns : String
  pub ven_conn_name : String
  pub ven_conn_ns : String

pub data VenConnError : Type 0 where
  no_install_ns no_ven_conn_name no_ven_conn_ns no_cluster_name : VenConnError
  no_http_client no_rest_mapper no_handler : String → VenConnError
  loading not_marshalled bad_url no_response : String → VenConnError
  unsupported : BackendAuth → VenConnError
  empty_token : VenConnError
  bad_status : ℕ → String → VenConnError

-- The clients for a user who is impersonated, of packages rest, apiutil and venafi_client.
pub record Kube : Type 1 where
  pub HttpClient : Type 0
  pub RestMapper : Type 0
  pub http_client_for : String → Result String HttpClient
  pub new_dynamic_rest_mapper : String → HttpClient → Result String RestMapper
  pub new_connection_handler : String → RestMapper → Result String ConnectionHandler

unfoldable pub impersonated : String → String
impersonated install_ns = concat "system:serviceaccount:" (concat install_ns ":venafi-connection")

unfoldable pub connect :
    Kube → AgentMetadata → String → String → String → Result VenConnError VenConnClient
unfolding impersonated
connect kube agent_metadata install_ns ven_conn_name ven_conn_ns = do
  http_cl ← map_err VenConnError.no_http_client (kube.http_client_for (impersonated install_ns))
  rest_mapper ←
      map_err VenConnError.no_rest_mapper
        (kube.new_dynamic_rest_mapper (impersonated install_ns) http_cl)
  handler ←
      map_err VenConnError.no_handler
        (kube.new_connection_handler (impersonated install_ns) rest_mapper)
  ok (record {
    agent_metadata = agent_metadata;
    conn_handler = handler;
    install_ns = install_ns;
    ven_conn_name = ven_conn_name;
    ven_conn_ns = ven_conn_ns;
  })

unfoldable pub new_ven_conn_client :
    Kube → AgentMetadata → String → String → String → Result VenConnError VenConnClient
unfolding connect
new_ven_conn_client kube agent_metadata install_ns ven_conn_name ven_conn_ns =
    if install_ns == ""
    then err VenConnError.no_install_ns
    else if ven_conn_name == ""
    then err VenConnError.no_ven_conn_name
    else if ven_conn_ns == ""
    then err VenConnError.no_ven_conn_ns
    else connect kube agent_metadata install_ns ven_conn_name ven_conn_ns

-- The switch on the way to authenticate.
unfoldable pub supported : BackendAuth → Result VenConnError (Unit {0})
supported BackendAuth.vcp_access_token = ok tt
supported BackendAuth.ngts_access_token = ok tt
supported auth = err (VenConnError.unsupported auth)

unfoldable pub is_ngts : BackendAuth → Bool
is_ngts BackendAuth.ngts_access_token = true
is_ngts _ = false

unfoldable pub checked_token : String → Result VenConnError (Unit {0})
checked_token token = if token == "" then err VenConnError.empty_token else ok tt

unfoldable pub checked_options : Options → Result VenConnError (Unit {0})
checked_options opts = if opts.cluster_name == "" then err VenConnError.no_cluster_name else ok tt

module _ {D : Type 0} (web : Web) (library : Library D) where
  unfoldable pub payload : ℕ → VenConnClient → List (DataReading D) → DataReadingsPost D
  payload now c readings = record {
    agent_metadata = c.agent_metadata;
    data_gather_time = now;
    data_readings = readings;
  }

  unfoldable pub upload_query : BackendAuth → Options → List (String × String)
  unfolding is_ngts
  upload_query auth opts =
      (if is_set opts.cluster_name then ("name", library.sanitize opts.cluster_name) ∷ [] else [])
      ++ ((if is_set opts.cluster_description
            then ("description", library.base64_url (library.sanitize opts.cluster_description))
              ∷ []
            else [])
          ++ (if is_ngts auth && opts.claimable_certs
              then ("certOwnership", "unassigned") ∷ []
              else []))

  unfoldable pub upload_request : ConnectionDetails → Options → library.Url → String → Request
  unfolding upload_query
  upload_request details opts url body = record {
    url = library.with_query url (library.query url ++ upload_query details.backend_auth opts);
    headers =
        ("Accept", "application/json")
        ∷ ("Content-Type", "application/json")
        ∷ ("Authorization", concat "Bearer " details.credential)
        ∷ ("User-Agent", library.user_agent)
        ∷ [];
    body = body;
  }

  unfoldable pub error_content : Result String String → String
  error_content (ok body) = body
  error_content (err e) = ""

  unfoldable pub checked_status : Response → Result VenConnError (Unit {0})
  unfolding is_success error_content
  checked_status response =
      if is_success response.status_code
      then ok tt
      else err (VenConnError.bad_status response.status_code (error_content response.body))

  -- `now` is when the payload is made.
  unfoldable pub post_data_readings_with_options :
      ℕ → List (DataReading D) → Options → VenConnClient → Result VenConnError (Unit {0})
  unfolding checked_options supported checked_token payload full_url upload_request checked_status
  post_data_readings_with_options now readings opts c = do
    named ← checked_options opts
    details ←
        map_err VenConnError.loading (c.conn_handler c.install_ns c.ven_conn_ns c.ven_conn_name)
    allowed ← supported details.backend_auth
    there ← checked_token details.credential
    body ← map_err VenConnError.not_marshalled (library.marshal (payload now c readings))
    url ←
        map_err VenConnError.bad_url
          (library.parse_url (full_url details.base_url "/v1/tlspk/upload/clusterdata/no"))
    response ← map_err VenConnError.no_response (web.perform (upload_request details opts url body))
    checked_status response
