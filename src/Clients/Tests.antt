-- ===== src/Clients/Tests.antt =====
-- Uploads to small servers.
use jetstack_secure.Prelude.{ℕ, ◌+◌, ◌*◌, ◌≤◌, String, ◌≡◌, ◌↔◌, refl, true, none, some, []}
use jetstack_secure.Prelude.Results.{ok, err}
use jetstack_secure.Prelude.Int.{pos, negsuc}
use jetstack_secure.Api.{AgentMetadata}
use jetstack_secure.CyberArk.Publish.{Options}
use jetstack_secure.Clients.Http.{Web, full_url, exchange, ends_in_slash, is_success}
use jetstack_secure.Clients.Instants.{seconds, signed_seconds, add_duration, unix}
use jetstack_secure.Clients.Keys.{PrivateKey, SigningMethod, signing_method}
use jetstack_secure.Clients.ApiToken
use jetstack_secure.Clients.ApiToken.Uploads as TUploads
use jetstack_secure.Clients.Oauth as O
use jetstack_secure.Clients.Oauth.Credentials as OCredentials
use jetstack_secure.Clients.Oauth.Grants as OGrants
use jetstack_secure.Clients.Oauth.Uploads as OUploads
use jetstack_secure.Clients.VenafiCloud as V
use jetstack_secure.Clients.VenafiCloud.Uploads as VUploads
use jetstack_secure.Clients.Ngts as N
use jetstack_secure.Clients.Ngts.Uploads as NUploads
use jetstack_secure.Clients.VenConn as C
use jetstack_secure.Clients.VenConn.Uploads as CUploads

-- What the tests compute with.
computes : Unit {0}
unfolding full_url exchange ends_in_slash seconds signed_seconds add_duration unix is_success
    O.post_data_readings O.renew_access_token OCredentials.new_oauth_client
    V.post_data_readings_with_options N.post_data_readings_with_options
computes = tt

full_url_tests :
    (full_url "https://example.com//" "//v1/upload" ≡ "https://example.com/v1/upload")
    × (full_url "" "" ≡ "/")
unfolding computes
full_url_tests = (refl, refl)

-- An hour, and 2 ^ 63 seconds, which overflow.
seconds_tests :
    (seconds 3600 ≡ pos 3600000000000) × (seconds 9223372037 ≡ negsuc 9223372036709551615)
unfolding computes
seconds_tests = (refl, refl)

signed_seconds_test : signed_seconds (negsuc 4) ≡ negsuc 4999999999
unfolding computes
signed_seconds_test = refl

signing_method_tests :
    (signing_method (PrivateKey.rsa_key 3072 "k") ≡ ok SigningMethod.rs384)
    × (signing_method (PrivateKey.ecdsa_key 521 "k") ≡ ok SigningMethod.es512)
unfolding signing_method
signing_method_tests = (refl, refl)

abbrev metadata : AgentMetadata
metadata = record { version = "v1"; cluster_id = "c1" }

abbrev options : Options
options = record {
  org_id = "org";
  cluster_id = "c1";
  cluster_name = "web";
  cluster_description = "";
  claimable_certs = true;
}

-- A server that answers with a token, which is also what it answers to an upload.
abbrev pub server : Web
server = record {
  refuses = λ url. none;
  perform = λ request. ok (record { status_code = 200; body = ok "token" });
}

abbrev pub oauth_library : O.Library String
oauth_library = record {
  encode_form = λ form. "form";
  join_path = λ parts. "path";
  marshal = λ post. ok "payload";
  unmarshal_token = λ body. ok (record { access_token = body; expires_in = 3600 });
  user_agent = "agent";
}

abbrev pub oauth_client : O.OAuthClient
oauth_client = record {
  credentials = record {
    user_id = "user";
    user_secret = "secret";
    client_id = "id";
    client_secret = "client";
    auth_server_domain = "auth.example.com";
  };
  access_token = record { bearer = ""; expiration_date = 0 };
  base_url = "https://example.com";
  agent_metadata = metadata;
}

abbrev noon : ℕ
noon = 63000000000000000000

abbrev pub oauth_clock : O.Clock
oauth_clock = record { gathered = noon; checked = noon; renewed = noon }

abbrev with_token : O.OAuthClient
with_token = record oauth_client {
  access_token = record { bearer = "token"; expiration_date = 63000003600000000000 };
}

oauth_test :
    O.post_data_readings server oauth_library oauth_clock "org" "c1" [] oauth_client
    ≡ (none, with_token)
unfolding computes
oauth_test = refl

post_data_readings_ok_example :
    OUploads.IsUploaded server oauth_library oauth_clock "org" "c1" [] oauth_client
      (O.post_data_readings server oauth_library oauth_clock "org" "c1" [] oauth_client).1
unfolding computes
post_data_readings_ok_example =
    OUploads.post_data_readings_ok server oauth_library oauth_clock "org" "c1" [] oauth_client refl

renew_access_token-expires_iff_example :
    (g : OGrants.IsGranted server oauth_library noon oauth_client.credentials
      with_token.access_token)
    × ((with_token.access_token.expiration_date ≡ noon + g.token.expires_in * 1000000000)
        ↔ (g.token.expires_in ≤ 9223372036))
unfolding computes
renew_access_token-expires_iff_example =
    OUploads.renew_access_token-expires_iff server oauth_library noon oauth_client with_token refl

abbrev library : V.Library String
library = record {
  Url = String;
  parse_url = λ s. ok s;
  query = λ url. [];
  with_query = λ url q. url;
  host = λ url. "api.venafi.cloud";
  join_url = λ url path. url;
  url_string = λ url. url;
  join_path = λ parts. "path";
  encode_form = λ form. "form";
  printed_length = λ s. "4";
  marshal = λ post. ok "payload";
  unmarshal_token =
      λ body. ok (record { access_token = body; token_type = "bearer"; expires_in = pos 3600 });
  sanitize = λ s. s;
  base64_url = λ s. s;
  signed_string = λ signing key claims. ok "signed";
  user_agent = "agent";
}

abbrev clock : V.Clock
clock = record {
  gathered = noon;
  checked = noon;
  issued = noon;
  expires = noon;
  requested = noon;
  jti = "1";
}

abbrev cloud_client : V.VenafiCloudClient
cloud_client = record {
  credentials = record { client_id = "id"; private_key_file = "key.pem" };
  access_token = some (record { access_token = ""; expiration_time = 0 });
  base_url = "https://api.venafi.cloud";
  agent_metadata = metadata;
  uploader_id = "no";
  upload_path = "v1/tlspk/uploads";
  private_key = PrivateKey.ed25519_key "k";
  jwt_signing_alg = SigningMethod.ed_dsa;
}

cloud_test : V.post_data_readings_with_options server library clock [] options cloud_client ≡ (
  none,
  record cloud_client {
    access_token = some (record { access_token = "token"; expiration_time = 63000003600000000000 });
    upload_path = "v1/tlspk/uploads/";
  },
)
unfolding computes
cloud_test = refl

cloud_post_ok_example :
    VUploads.IsUploaded server library clock [] options cloud_client
      (V.post_data_readings_with_options server library clock [] options cloud_client).1
unfolding computes
cloud_post_ok_example = VUploads.cloud_post_ok server library clock [] options cloud_client refl

abbrev ngts_client : N.NgtsClient String
ngts_client = record {
  credentials = record { client_id = "id"; private_key_file = "key.pem" };
  access_token = some (record { access_token = ""; expiration_time = 0 });
  base_url = "https://1234567890.ngts.paloaltonetworks.com";
  agent_metadata = metadata;
  private_key = PrivateKey.ed25519_key "k";
  jwt_signing_alg = SigningMethod.ed_dsa;
}

ngts_post_ok_example :
    NUploads.IsUploaded server library clock [] options ngts_client
      (N.post_data_readings_with_options server library clock [] options ngts_client).1
unfolding computes
ngts_post_ok_example = NUploads.ngts_post_ok server library clock [] options ngts_client refl

abbrev connection : C.ConnectionDetails
connection = record {
  backend_auth = C.BackendAuth.ngts_access_token;
  base_url = "https://api.example.com/";
  credential = "token";
}

abbrev kube : C.Kube
kube = record {
  HttpClient = String;
  RestMapper = String;
  http_client_for = λ user. ok user;
  new_dynamic_rest_mapper = λ user client. ok user;
  new_connection_handler = λ user mapper. ok (λ agent_ns ns name. ok connection);
}

abbrev ven_conn_client : C.VenConnClient
ven_conn_client = record {
  agent_metadata = metadata;
  conn_handler = λ agent_ns ns name. ok connection;
  install_ns = "venafi";
  ven_conn_name = "connection";
  ven_conn_ns = "venafi";
}

ven_conn_tests :
    (C.new_ven_conn_client kube metadata "venafi" "connection" "venafi" ≡ ok ven_conn_client)
    × (C.new_ven_conn_client kube metadata "venafi" "" "venafi"
        ≡ err C.VenConnError.no_ven_conn_name)
    × (C.post_data_readings_with_options server library noon []
          (record options { cluster_name = "" })
          ven_conn_client
        ≡ err C.VenConnError.no_cluster_name)
    × (C.post_data_readings_with_options server library noon [] options (record ven_conn_client {
      conn_handler =
          λ agent_ns ns name. ok (record connection { backend_auth = C.BackendAuth.vcp_api_key });
    })
        ≡ err (C.VenConnError.unsupported C.BackendAuth.vcp_api_key))
unfolding computes C.new_ven_conn_client C.post_data_readings_with_options
ven_conn_tests = (refl, refl, refl, refl)

ven_conn_post_ok_example : CUploads.IsUploaded server library noon [] options ven_conn_client
unfolding computes C.post_data_readings_with_options
ven_conn_post_ok_example =
    CUploads.ven_conn_post_ok server library noon [] options ven_conn_client tt refl

abbrev api_token_library : ApiToken.Library String
api_token_library = record {
  join_path = λ parts. "path";
  marshal = λ post. ok "payload";
  user_agent = "agent";
}

abbrev api_token_client : ApiToken.ApiTokenClient
api_token_client = record {
  api_token = "t";
  base_url = "https://example.com";
  agent_metadata = metadata;
}

api_token_test :
    ApiToken.post_data_readings server api_token_library api_token_client noon "org" "c1" [] ≡ ok tt
unfolding ApiToken.post_data_readings
api_token_test = refl

api_token_post_ok_example :
    TUploads.IsUploaded server api_token_library api_token_client noon "org" "c1" []
unfolding ApiToken.post_data_readings
api_token_post_ok_example =
    TUploads.api_token_post_ok server api_token_library api_token_client noon "org" "c1" [] tt refl
