-- ===== src/Agent/Config/Selection.antt =====
-- What the choice of a mode says of the flags, and of the server that the mode then gets.
use jetstack_secure.Prelude.{
  String, ◌≡◌, refl, sym, Bool, true, false, List, [], ◌∷◌, ◌++◌, arith, eq_iff, is_set, ◌⊎◌,
  true≢false, if◌then◌else◌,
}
use jetstack_secure.Prelude.Results.{ok}
use jetstack_secure.Prelude.Texts.{concat, concat-ne_empty, is_set-concat}
use jetstack_secure.Agent.Config.{Config, AgentCmdFlags, OutputMode, Environment}
use jetstack_secure.Agent.Config.Errors.{ConfigError}
use jetstack_secure.Agent.Config.Mode.{keypair_mode, select_mode, error_if}
use jetstack_secure.Agent.Config.Sections.{
  endpoint_server, default_server, configured_server, mode_server, kept_server, is_valid_server,
  combine_server,
}

module _ (cfg : Config) (flags : AgentCmdFlags) where
  pub select-ngts : select_mode cfg flags ≡ ok OutputMode.ngts → flags.ngts_mode ≡ true
  unfolding select_mode keypair_mode
  select-ngts h = ground arith

  -- The key pair comes from a credentials file, or from two flags.
  pub select-keypair :
      select_mode cfg flags ≡ ok OutputMode.venafi_cloud_keypair
      → ((flags.venafi_cloud_mode ≡ true) × (is_set flags.credentials_path ≡ true))
        ⊎ ((is_set flags.client_id ≡ true) × (is_set flags.private_key_path ≡ true))
  unfolding select_mode keypair_mode
  select-keypair h = ground arith

  pub select-venafi_connection :
      select_mode cfg flags ≡ ok OutputMode.venafi_connection → is_set flags.ven_conn_name ≡ true
  unfolding select_mode
  select-venafi_connection h = ground arith

  pub select-oauth :
      select_mode cfg flags ≡ ok OutputMode.jetstack_secure_oauth
      → is_set flags.credentials_path ≡ true
  unfolding select_mode
  select-oauth h = ground arith

  pub select-api_token :
      select_mode cfg flags ≡ ok OutputMode.jetstack_secure_api_token
      → is_set flags.api_token ≡ true
  unfolding select_mode
  select-api_token h = ground arith

  pub select-machine_hub :
      select_mode cfg flags ≡ ok OutputMode.machine_hub → flags.machine_hub_mode ≡ true
  unfolding select_mode
  select-machine_hub h = ground arith

  pub select-local_file :
      select_mode cfg flags ≡ ok OutputMode.local_file
      → is_set (if is_set flags.output_path then flags.output_path else cfg.output_path) ≡ true
  unfolding select_mode
  select-local_file h = ground arith

pub append-nil : {A : Type 0} (xs ys : List A) → xs ++ ys ≡ [] → (xs ≡ []) × (ys ≡ [])
append-nil [] ys h = (refl, h)
append-nil (x ∷ xs) ys h = cc

pub error_if-nil : (b : Bool) (e : ConfigError) → error_if b e ≡ [] → b ≡ false
unfolding error_if
error_if-nil true e h = cc
error_if-nil false e h = refl

endpoint_server-set : (cfg : Config) → is_set (endpoint_server cfg) ≡ true
unfolding endpoint_server
endpoint_server-set cfg =
    is_set-concat _ (concat "://" cfg.endpoint.host)
      (concat-ne_empty "://" cfg.endpoint.host (λ e. true≢false (sym ((eq_iff "://" "").1 e))))

-- Where the mode has a default, there is a server.
configured_server-set :
    (mode : OutputMode) (ngts_server_url : String) (cfg : Config)
    → is_set (default_server mode ngts_server_url) ≡ true
    → is_set (configured_server mode ngts_server_url cfg).0 ≡ true
unfolding configured_server
configured_server-set mode ngts_server_url cfg h = ground (arith, endpoint_server-set cfg)

-- The server of the modes that upload to a configured server is set and valid.
pub server_needs :
    (env : Environment) (mode : OutputMode) (cfg : Config)
    → is_set (default_server mode "") ≡ true
    → mode_server mode "" (configured_server mode "" cfg).0 ≡ (configured_server mode "" cfg).0
    → kept_server mode (configured_server mode "" cfg).0 ≡ (configured_server mode "" cfg).0
    → (combine_server env mode "" cfg).errors ≡ []
    → (is_set (combine_server env mode "" cfg).value.0 ≡ true)
      × (is_valid_server env (combine_server env mode "" cfg).value.0 ≡ true)
unfolding combine_server
server_needs env mode cfg d m k h =
    let configured = configured_server-set mode "" cfg d in
    let failed = error_if-nil _ _ h in
    let failed' = rw m at failed in rw (m, k) (configured, ground arith)
