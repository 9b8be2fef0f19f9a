-- ===== src/Agent/Config/Errors.antt =====
-- The errors of the configuration, one constructor for each message of pkg/agent/config.go.
use jetstack_secure.Prelude.{ℕ, String}

pub data ConfigError : Type 0 where
  -- No output mode.
  client_id_without_private_key private_key_without_client_id no_output_mode : ConfigError
  -- NGTS mode.
  tsg_id_and_server_url no_tsg_id_or_server_url ngts_needs_private_key : ConfigError
  ngts_with_machine_hub ngts_with_venafi_connection ngts_with_credentials_file : ConfigError
  ngts_with_api_token ngts_with_venafi_cloud : ConfigError
  ngts_with_organization_id ngts_with_cluster_id : ConfigError
  -- The sections of the configuration file.
  server_not_valid : String → ConfigError
  upload_path_required upload_path_not_valid : ConfigError
  cluster_name_required cluster_name_or_id_required : ConfigError
  organization_id_required cluster_id_required : ConfigError
  gatherer_without_kind gatherer_without_name : ℕ → ConfigError
  period_required no_install_namespace : ConfigError
  invalid_annotation_regex invalid_label_regex : ℕ → ConfigError
  -- The credentials and the client.
  credentials_file client : String → ConfigError
  client_id_with_credentials_file private_key_with_credentials_file no_credentials : ConfigError
  programmer_mistake : ConfigError
  loading_kubeconfig : String → ConfigError
