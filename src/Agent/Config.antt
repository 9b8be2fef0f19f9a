-- ===== src/Agent/Config.antt =====
-- pkg/agent/config.go: the configuration file, the command-line flags, and the combined
-- configuration. Durations are integers of nanoseconds.
pub mod Errors
pub mod Mode
pub mod Sections
pub mod Settings
pub mod Selection
pub mod Combine
pub mod Accepted
pub mod Consistency
pub mod Settled
pub mod Credentials
pub mod Gatherers
use jetstack_secure.Prelude.{ℕ, String, Bool, Option, List}
use jetstack_secure.Prelude.Int.{ℤ}

pub record Endpoint : Type 0 where
  pub protocol : String
  pub host : String
  pub path : String

-- The `kind`, the name and the deprecated data path; `resource` stands for the gatherer's own
-- configuration, which validation does not read.
pub record DataGatherer : Type 0 where
  pub kind : String
  pub name : String
  pub data_path : String
  pub resource : String

pub record VenafiCloudConfig : Type 0 where
  pub uploader_id : String
  pub upload_path : String

pub record Config : Type 0 where
  pub schedule : String
  pub period : ℤ
  pub endpoint : Endpoint
  pub server : String
  pub organization_id : String
  pub cluster_id : String
  pub cluster_name : String
  pub cluster_description : String
  pub claimable_certs : Bool
  pub data_gatherers : List DataGatherer
  pub venafi_cloud : Option VenafiCloudConfig
  pub input_path : String
  pub output_path : String
  pub exclude_annotation_keys_regex : List String
  pub exclude_label_keys_regex : List String

pub record AgentCmdFlags : Type 0 where
  pub config_file_path : String
  pub period : ℤ
  pub venafi_cloud_mode : Bool
  pub machine_hub_mode : Bool
  pub client_id : String
  pub private_key_path : String
  pub credentials_path : String
  pub one_shot : Bool
  pub output_path : String
  pub input_path : String
  pub backoff_max_time : ℤ
  pub strict_mode : Bool
  pub api_token : String
  pub ven_conn_name : String
  pub ven_conn_ns : String
  pub install_ns : String
  pub profiling : Bool
  pub prometheus : Bool
  pub ngts_mode : Bool
  pub tsg_id : String
  pub ngts_server_url : String

pub data OutputMode : Type 0 where
  jetstack_secure_oauth : OutputMode
  jetstack_secure_api_token : OutputMode
  venafi_cloud_keypair : OutputMode
  venafi_connection : OutputMode
  local_file : OutputMode
  machine_hub : OutputMode
  ngts : OutputMode

-- A compiled regular expression, by what `MatchString` answers.
abbrev pub Regexp : Type 0
Regexp = String → Bool

pub record CombinedConfig : Type 0 where
  pub data_gatherers : List DataGatherer
  pub period : ℤ
  pub backoff_max_time : ℤ
  pub install_ns : String
  pub strict_mode : Bool
  pub one_shot : Bool
  pub output_mode : OutputMode
  pub cluster_id : String
  pub server : String
  pub organization_id : String
  pub endpoint_path : String
  pub upload_path : String
  pub cluster_name : String
  pub cluster_description : String
  pub claimable_certs : Bool
  pub ven_conn_name : String
  pub ven_conn_ns : String
  pub exclude_annotation_keys_regex : List Regexp
  pub exclude_label_keys_regex : List Regexp
  pub tsg_id : String
  pub ngts_server_url : String
  pub output_path : String
  pub input_path : String

-- What the code takes from its surroundings: `url.Parse` with the host name, `regexp.Compile`, and the
-- environment variables.
pub record Environment : Type 0 where
  -- `none` where the URL does not parse.
  pub hostname : String → Option String
  pub compile : String → Option Regexp
  -- Empty where POD_NAMESPACE is not set.
  pub pod_namespace : String
  pub ark_username : Option String
