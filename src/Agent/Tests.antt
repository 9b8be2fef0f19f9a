-- ===== src/Agent/Tests.antt =====
-- Configurations that are accepted, and runs of the checks.
use jetstack_secure.Prelude.{
  String, ◌≡◌, ◌↔◌, refl, true, false, none, some, List, [], ◌∷◌, ◌==◌, ◌⊎◌, if◌then◌else◌,
}
use jetstack_secure.Prelude.Results.{ok, err}
use jetstack_secure.Prelude.Int.{pos, is_zero, is_positive}
use jetstack_secure.Agent.Config.{
  Config, DataGatherer, AgentCmdFlags, OutputMode, CombinedConfig, Environment,
}
use jetstack_secure.Agent.Config.Errors.{ConfigError}
use jetstack_secure.Agent.Config.Mode.{mode_errors, select_mode}
use jetstack_secure.Agent.Config.Sections.{combine_server, combine_upload_path, combine_cluster}
use jetstack_secure.Agent.Config.Settings.{
  validate_data_gatherers, combine_period, combine_install_ns, compile_all, combine_ven_conn,
  flag_or,
}
use jetstack_secure.Agent.Config.Combine.{ClientFactory, combine_config, venafi_cloud_client}
use jetstack_secure.Agent.Config.Consistency.{ModeNeeds, combine_config-needs}
use jetstack_secure.Agent.Config.Settled.{combine_period_lem}
use jetstack_secure.Agent.Config.Credentials.{FromFlags, FromFile, venafi_cloud_client-inv}

computes : Unit {0}
unfolding combine_config venafi_cloud_client select_mode mode_errors combine_server
    combine_upload_path combine_cluster validate_data_gatherers combine_period combine_install_ns
    compile_all combine_ven_conn flag_or
computes = tt

abbrev environment : Environment
environment = record {
  hostname = λ s. some s;
  compile = λ s. some (λ k. k == s);
  pod_namespace = "venafi";
  ark_username = none;
}

abbrev gatherers : List DataGatherer
gatherers =
    record { kind = "k8s-dynamic"; name = "k8s/secrets"; data_path = ""; resource = "secrets" } ∷ []

abbrev file : Config
file = record {
  schedule = "";
  period = pos 60;
  endpoint = record { protocol = ""; host = ""; path = "" };
  server = "";
  organization_id = "";
  cluster_id = "";
  cluster_name = "web";
  cluster_description = "";
  claimable_certs = false;
  data_gatherers = gatherers;
  venafi_cloud = some (record { uploader_id = "no"; upload_path = "/v1/tlspk/upload" });
  input_path = "";
  output_path = "";
  exclude_annotation_keys_regex = [];
  exclude_label_keys_regex = [];
}

abbrev keypair : AgentCmdFlags
keypair = record {
  config_file_path = "config.yaml";
  period = pos 0;
  venafi_cloud_mode = false;
  machine_hub_mode = false;
  client_id = "id";
  private_key_path = "key.pem";
  credentials_path = "";
  one_shot = false;
  output_path = "";
  input_path = "";
  backoff_max_time = pos 600;
  strict_mode = false;
  api_token = "";
  ven_conn_name = "";
  ven_conn_ns = "";
  install_ns = "";
  profiling = false;
  prometheus = false;
  ngts_mode = false;
  tsg_id = "";
  ngts_server_url = "";
}

abbrev combined : CombinedConfig
combined = record {
  data_gatherers = gatherers;
  period = pos 60;
  backoff_max_time = pos 600;
  install_ns = "venafi";
  strict_mode = false;
  one_shot = false;
  output_mode = OutputMode.venafi_cloud_keypair;
  cluster_id = "";
  server = "https://api.venafi.cloud";
  organization_id = "";
  endpoint_path = "";
  upload_path = "/v1/tlspk/upload";
  cluster_name = "web";
  cluster_description = "";
  claimable_certs = false;
  ven_conn_name = "";
  ven_conn_ns = "";
  exclude_annotation_keys_regex = [];
  exclude_label_keys_regex = [];
  tsg_id = "";
  ngts_server_url = "";
  output_path = "";
  input_path = "";
}

combine_config-needs_example :
    ModeNeeds OutputMode.venafi_cloud_keypair environment file keypair combined
unfolding computes
combine_config-needs_example = combine_config-needs environment file keypair combined refl

-- Neither a mode nor a period is there.
no_mode_test :
    combine_config environment file (record keypair { client_id = ""; private_key_path = "" })
    ≡ err (ConfigError.no_output_mode ∷ [])
unfolding computes
no_mode_test = refl

combine_period_lem_example : ((combine_period file keypair).errors ≡ []) ↔ (
    ((is_positive (pos 0) ≡ true) × ((combine_period file keypair).value ≡ pos 0))
    ⊎ ((is_zero (pos 0) ≡ true)
        × (is_positive (pos 60) ≡ true)
        × ((combine_period file keypair).value ≡ pos 60)))
combine_period_lem_example = combine_period_lem file keypair refl refl refl

-- Clients that show what they were created from.
abbrev traces : ClientFactory
traces = record {
  Client = String;
  OauthCredentials = String;
  VenafiCredentials = String;
  read_credentials_file = λ path. if path == "" then err "missing" else ok path;
  parse_oauth_credentials = λ s. ok s;
  parse_venafi_credentials = λ s. ok s;
  venafi_keypair = λ id key. key;
  RestConfig = String;
  load_rest_config = ok "rest";
  new_oauth_client = λ cluster creds server. ok creds;
  new_api_token_client = λ cluster token server. ok token;
  new_venafi_cloud_client = λ cluster creds server uploader path. elim creds [
    | none ↦ err "no credentials"
    | some c ↦ ok c
  ];
  new_ven_conn_client = λ rest cluster ns name conn_ns. ok name;
  new_file_client = λ path. path;
  new_cyber_ark = ok "cyberark";
  new_ngts_client = λ cluster id key server tsg. ok id;
}

venafi_cloud_client-inv_example :
    FromFlags traces keypair combined "key.pem" ⊎ FromFile traces keypair combined "key.pem"
unfolding computes
venafi_cloud_client-inv_example = venafi_cloud_client-inv traces keypair combined "key.pem" refl
