-- ===== src/Agent/Config/Sections.antt =====
-- pkg/agent/config.go: the sections of `ValidateAndCombineConfig` after the choice of the mode. Each
-- gives its part of the combined configuration and the errors that it adds. Logging is left out.
use jetstack_secure.Prelude.{
  String, Bool, false, not, ◌&&◌, Option, none, some, List, [], ◌∷◌, ◌++◌, ◌==◌, is_set, is_some,
  if◌then◌else◌,
}
use jetstack_secure.Prelude.Texts.{concat}
use jetstack_secure.Agent.Config.{Config, VenafiCloudConfig, OutputMode, Environment}
use jetstack_secure.Agent.Config.Errors.{ConfigError}
use jetstack_secure.Agent.Config.Mode.{error_if}

-- A part of the combined configuration, beside the errors of its section.
pub record Checked {ℓ} (A : Type ℓ) : Type ℓ where
  pub value : A
  pub errors : List ConfigError

abbrev pub has_endpoint_field : Config → Bool
has_endpoint_field cfg = is_set cfg.endpoint.host && is_set cfg.endpoint.path

-- `http`, where the deprecated endpoint names no protocol and there is no server.
unfoldable pub endpoint_server : Config → String
endpoint_server cfg =
    let protocol =
      if cfg.endpoint.protocol == "" && cfg.server == "" then "http" else cfg.endpoint.protocol in
    concat protocol (concat "://" cfg.endpoint.host)

unfoldable pub default_server : OutputMode → String → String
default_server OutputMode.venafi_cloud_keypair ngts_server_url = "https://api.venafi.cloud"
default_server OutputMode.ngts ngts_server_url = ngts_server_url
default_server _ ngts_server_url = "https://preflight.jetstack.io"

-- The server and the endpoint's path, before the mode is looked at.
unfoldable pub configured_server : OutputMode → String → Config → String × String
unfolding endpoint_server default_server
configured_server mode ngts_server_url cfg =
    if is_set cfg.server
    then (cfg.server, "")
    else if has_endpoint_field cfg
    then (endpoint_server cfg, cfg.endpoint.path)
    else (default_server mode ngts_server_url, "")

unfoldable pub mode_server : OutputMode → String → String → String
mode_server OutputMode.ngts ngts_server_url server = ngts_server_url
mode_server _ ngts_server_url server = server

-- `urlErr != nil || url.Hostname() == ""`.
unfoldable pub is_valid_server : Environment → String → Bool
is_valid_server env server = elim (env.hostname server) [ none ↦ false | some host ↦ is_set host ]

unfoldable pub kept_server : OutputMode → String → String
kept_server OutputMode.venafi_connection server = ""
kept_server _ server = server

-- `server` and the deprecated `endpoint.path`.
unfoldable pub combine_server :
    Environment → OutputMode → String → Config → Checked (String × String)
unfolding configured_server mode_server is_valid_server kept_server error_if
combine_server env mode ngts_server_url cfg =
    let (configured, endpoint_path) = configured_server mode ngts_server_url cfg in
    let server = mode_server mode ngts_server_url configured in
    record {
      value = (kept_server mode server, endpoint_path);
      errors =
          error_if (is_set server && not (is_valid_server env server))
            (ConfigError.server_not_valid server);
    }

unfoldable pub keypair_upload_path : Environment → Option VenafiCloudConfig → Checked String
keypair_upload_path env none = record { value = ""; errors = ConfigError.upload_path_required ∷ [] }
keypair_upload_path env (some venafi) =
    if venafi.upload_path == ""
    then record { value = ""; errors = ConfigError.upload_path_required ∷ [] }
    else if is_some (env.hostname venafi.upload_path)
    then record { value = venafi.upload_path; errors = [] }
    else record { value = ""; errors = ConfigError.upload_path_not_valid ∷ [] }

-- `venafi-cloud.upload_path`.
unfoldable pub combine_upload_path : Environment → OutputMode → Config → Checked String
unfolding keypair_upload_path
combine_upload_path env OutputMode.venafi_cloud_keypair cfg =
    keypair_upload_path env cfg.venafi_cloud
combine_upload_path env _ cfg = record { value = ""; errors = [] }

-- `cluster_name`, `cluster_id` and `organization_id`.
pub record Cluster : Type 0 where
  pub name : String
  pub id : String
  pub organization_id : String

unfoldable pub venafi_cluster : Config → Checked Cluster
unfolding error_if
venafi_cluster cfg = record {
  value = record {
    name = if cfg.cluster_name == "" then cfg.cluster_id else cfg.cluster_name;
    id = "";
    organization_id = "";
  };
  errors =
      error_if (cfg.cluster_name == "" && cfg.cluster_id == "")
        ConfigError.cluster_name_or_id_required;
}

unfoldable pub jetstack_cluster : Config → Checked Cluster
unfolding error_if
jetstack_cluster cfg = record {
  value = record { name = ""; id = cfg.cluster_id; organization_id = cfg.organization_id };
  errors =
      error_if (cfg.organization_id == "") ConfigError.organization_id_required
      ++ error_if (cfg.cluster_id == "") ConfigError.cluster_id_required;
}

unfoldable pub machine_hub_name : Environment → Config → String
machine_hub_name env cfg =
    if cfg.cluster_name == ""
    then (elim env.ark_username [ none ↦ "" | some username ↦ username ])
    else cfg.cluster_name

unfoldable pub combine_cluster : Environment → OutputMode → Config → Checked Cluster
unfolding venafi_cluster jetstack_cluster machine_hub_name error_if
combine_cluster env OutputMode.ngts cfg = record {
  value = record { name = cfg.cluster_name; id = ""; organization_id = "" };
  errors = error_if (cfg.cluster_name == "") ConfigError.cluster_name_required;
}
combine_cluster env OutputMode.venafi_cloud_keypair cfg = venafi_cluster cfg
combine_cluster env OutputMode.venafi_connection cfg = venafi_cluster cfg
combine_cluster env OutputMode.jetstack_secure_oauth cfg = jetstack_cluster cfg
combine_cluster env OutputMode.jetstack_secure_api_token cfg = jetstack_cluster cfg
combine_cluster env OutputMode.machine_hub cfg = record {
  value = record { name = machine_hub_name env cfg; id = ""; organization_id = "" };
  errors = [];
}
combine_cluster env OutputMode.local_file cfg = record {
  value = record { name = ""; id = ""; organization_id = "" };
  errors = [];
}
