-- ===== src/Agent/Config/Accepted.antt =====
-- Which tests of the sections an accepted configuration has passed, and what they give.
use jetstack_secure.Prelude.{
  ◌≡◌, true, false, not, ◌&&◌, Option, none, some, [], arith, ◌==◌, is_set, Bool-cases, inl, inr,
}
use jetstack_secure.Prelude.Results.{ok, Result-cases}
use jetstack_secure.Prelude.Lists.{is_empty, is_empty-nil}
use jetstack_secure.Agent.Config.{
  Config, VenafiCloudConfig, AgentCmdFlags, OutputMode, CombinedConfig, Environment,
}
use jetstack_secure.Agent.Config.Errors.{ConfigError}
use jetstack_secure.Agent.Config.Mode.{select_mode, error_if, ngts_errors, mode_errors}
use jetstack_secure.Agent.Config.Sections.{
  Checked, combine_server, combine_upload_path, keypair_upload_path, combine_cluster,
  venafi_cluster, jetstack_cluster,
}
use jetstack_secure.Agent.Config.Settings.{
  validate_data_gatherers, combine_period, combine_install_ns,
}
use jetstack_secure.Agent.Config.Selection.{append-nil, error_if-nil}
use jetstack_secure.Agent.Config.Combine.{combine, finish_combine, combine_config, ngts_field}

-- The tests of the NGTS mode, all failed.
pub record NgtsChecks (cfg : Config) (flags : AgentCmdFlags) : Type 0 where
  pub not_both : is_set flags.tsg_id && is_set flags.ngts_server_url ≡ false
  pub not_neither : flags.tsg_id == "" && flags.ngts_server_url == "" ≡ false
  pub private_key : flags.private_key_path == "" ≡ false
  pub no_machine_hub : flags.machine_hub_mode ≡ false
  pub no_ven_conn : is_set flags.ven_conn_name ≡ false
  pub no_credentials : not flags.venafi_cloud_mode && is_set flags.credentials_path ≡ false
  pub no_api_token : is_set flags.api_token ≡ false
  pub no_venafi_cloud : flags.venafi_cloud_mode ≡ false
  pub no_organization_id : is_set cfg.organization_id ≡ false
  pub no_cluster_id : is_set cfg.cluster_id ≡ false

pub ngts_checks :
    (cfg : Config) (flags : AgentCmdFlags) → ngts_errors cfg flags ≡ [] → NgtsChecks cfg flags
unfolding ngts_errors
ngts_checks cfg flags h =
    let (a, h1) = append-nil _ _ h in
    let (b, h2) = append-nil _ _ h1 in
    let (c, h3) = append-nil _ _ h2 in
    let (d, h4) = append-nil _ _ h3 in
    let (e, h5) = append-nil _ _ h4 in
    let (f, h6) = append-nil _ _ h5 in
    let (g, h7) = append-nil _ _ h6 in
    let (i, h8) = append-nil _ _ h7 in
    let (j, k) = append-nil _ _ h8 in
    record {
      not_both = error_if-nil _ _ a;
      not_neither = error_if-nil _ _ b;
      private_key = error_if-nil _ _ c;
      no_machine_hub = error_if-nil _ _ d;
      no_ven_conn = error_if-nil _ _ e;
      no_credentials = error_if-nil _ _ f;
      no_api_token = error_if-nil _ _ g;
      no_venafi_cloud = error_if-nil _ _ i;
      no_organization_id = error_if-nil _ _ j;
      no_cluster_id = error_if-nil _ _ k;
    }

-- The sections of an accepted configuration have no errors.
pub record NoErrors (env : Environment) (cfg : Config) (flags : AgentCmdFlags) (mode : OutputMode)
    : Type 0 where
  pub mode_fine : mode_errors mode cfg flags ≡ []
  pub server_fine :
      (combine_server env mode (ngts_field mode flags.ngts_server_url) cfg).errors ≡ []
  pub upload_path_fine : (combine_upload_path env mode cfg).errors ≡ []
  pub cluster_fine : (combine_cluster env mode cfg).errors ≡ []
  pub gatherers_fine : validate_data_gatherers cfg.data_gatherers ≡ []
  pub period_fine : (combine_period cfg flags).errors ≡ []
  pub install_ns_fine : (combine_install_ns env mode flags).errors ≡ []

pub no_errors :
    (env : Environment) (cfg : Config) (flags : AgentCmdFlags) (mode : OutputMode)
    → (combine env cfg flags mode).errors ≡ []
    → NoErrors env cfg flags mode
unfolding combine
no_errors env cfg flags mode h =
    let (a, h1) = append-nil _ _ h in
    let (b, h2) = append-nil _ _ h1 in
    let (c, h3) = append-nil _ _ h2 in
    let (d, h4) = append-nil _ _ h3 in
    let (e, h5) = append-nil _ _ h4 in
    let (f, h6) = append-nil _ _ h5 in
    let (g, h7) = append-nil _ _ h6 in
    record {
      mode_fine = a;
      server_fine = b;
      upload_path_fine = c;
      cluster_fine = d;
      gatherers_fine = e;
      period_fine = f;
      install_ns_fine = g;
    }

finish_combine-inv :
    (c : Checked CombinedConfig) (res : CombinedConfig)
    → finish_combine c ≡ ok res
    → (c.errors ≡ []) × (c.value ≡ res)
unfolding finish_combine
finish_combine-inv c res h = elim (Bool-cases (is_empty c.errors)) [
  | inl e ↦ let h' = rw (e, finish_combine) at h in (is_empty-nil c.errors e, cc)
  | inr e ↦ let h' = rw (e, finish_combine) at h in cc
]

-- An accepted configuration is the combination of the sections in the selected mode.
pub combine_config-inv :
    (env : Environment) (cfg : Config) (flags : AgentCmdFlags) (res : CombinedConfig)
    → combine_config env cfg flags ≡ ok res
    → (mode : OutputMode) × (select_mode cfg flags ≡ ok mode)
      × ((combine env cfg flags mode).errors ≡ [])
      × ((combine env cfg flags mode).value ≡ res)
unfolding combine_config
combine_config-inv env cfg flags res h = elim (Result-cases (select_mode cfg flags)) [
  | inl (mode, e) ↦
      let (fine, same) =
        finish_combine-inv (combine env cfg flags mode) res (rw (e, combine_config) at h) in
      (mode, e, fine, same)
  | inr (e, failed) ↦ let h' = rw (failed, combine_config) at h in cc
]

-- A section that accepts a cluster gives it a name, or an organization and an id.
pub venafi_cluster-name :
    (cfg : Config)
    → (venafi_cluster cfg).errors ≡ []
    → is_set (venafi_cluster cfg).value.name ≡ true
unfolding venafi_cluster
venafi_cluster-name cfg h = let failed = error_if-nil _ _ h in ground arith

pub jetstack_cluster-ids :
    (cfg : Config)
    → (jetstack_cluster cfg).errors ≡ []
    → (is_set (jetstack_cluster cfg).value.organization_id ≡ true)
      × (is_set (jetstack_cluster cfg).value.id ≡ true)
unfolding jetstack_cluster
jetstack_cluster-ids cfg h =
    let (a, b) =
      append-nil (error_if (cfg.organization_id == "") ConfigError.organization_id_required)
        (error_if (cfg.cluster_id == "") ConfigError.cluster_id_required) h in
    let a' : (cfg.organization_id == "") ≡ false = error_if-nil _ _ a in
    let b' : (cfg.cluster_id == "") ≡ false = error_if-nil _ _ b in (ground arith, ground arith)

pub keypair_upload_path-set :
    (env : Environment) (o : Option VenafiCloudConfig)
    → (keypair_upload_path env o).errors ≡ []
    → is_set (keypair_upload_path env o).value ≡ true
unfolding keypair_upload_path
keypair_upload_path-set env none h = cc
keypair_upload_path-set env (some venafi) h = ground arith

pub install_ns-set :
    (env : Environment) (flags : AgentCmdFlags)
    → (combine_install_ns env OutputMode.venafi_connection flags).errors ≡ []
    → is_set (combine_install_ns env OutputMode.venafi_connection flags).value ≡ true
unfolding combine_install_ns
install_ns-set env flags h = ground arith
