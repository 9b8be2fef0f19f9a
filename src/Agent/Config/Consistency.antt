-- ===== src/Agent/Config/Consistency.antt =====
-- What an accepted configuration guarantees.
use jetstack_secure.Prelude.{◌≡◌, refl, true, false, arith, is_set, ◌⊎◌, subst}
use jetstack_secure.Prelude.Results.{ok}
use jetstack_secure.Agent.Config.{Config, AgentCmdFlags, OutputMode, CombinedConfig, Environment}
use jetstack_secure.Agent.Config.Mode.{select_mode, mode_errors}
use jetstack_secure.Agent.Config.Sections.{
  combine_server, is_valid_server, default_server, configured_server, mode_server, kept_server,
  combine_upload_path, combine_cluster,
}
use jetstack_secure.Agent.Config.Settings.{combine_ven_conn, flag_or}
use jetstack_secure.Agent.Config.Selection.{
  error_if-nil, server_needs, select-ngts, select-keypair, select-venafi_connection, select-oauth,
  select-api_token, select-machine_hub, select-local_file,
}
use jetstack_secure.Agent.Config.Combine.{combine, combine_config}
use jetstack_secure.Agent.Config.Accepted.{
  NoErrors, ngts_checks, no_errors, combine_config-inv, venafi_cluster-name, jetstack_cluster-ids,
  keypair_upload_path-set, install_ns-set,
}

-- What the mode needs of the combined configuration.
abbrev pub ModeNeeds : OutputMode → Environment → Config → AgentCmdFlags → CombinedConfig → Type 0
ModeNeeds OutputMode.ngts env cfg flags res =
    (flags.ngts_mode ≡ true)
    × (flags.venafi_cloud_mode ≡ false)
    × (is_set cfg.organization_id ≡ false)
    × (is_set cfg.cluster_id ≡ false)
    × ((is_set res.server ≡ false) ⊎ (is_valid_server env res.server ≡ true))
    × ((is_set flags.tsg_id ≡ true) × (is_set flags.ngts_server_url ≡ false)
        ⊎ (is_set flags.tsg_id ≡ false) × (is_set flags.ngts_server_url ≡ true))
    × (is_set flags.private_key_path ≡ true)
    × (flags.machine_hub_mode ≡ false)
    × (is_set flags.ven_conn_name ≡ false)
    × (is_set flags.credentials_path ≡ false)
    × (is_set flags.api_token ≡ false)
    × (is_set res.cluster_name ≡ true)
    × (is_set res.organization_id ≡ false)
    × (is_set res.cluster_id ≡ false)
ModeNeeds OutputMode.venafi_cloud_keypair env cfg flags res =
    (((flags.venafi_cloud_mode ≡ true) × (is_set flags.credentials_path ≡ true))
      ⊎ ((is_set flags.client_id ≡ true) × (is_set flags.private_key_path ≡ true)))
    × (is_set res.upload_path ≡ true)
    × (is_set res.cluster_name ≡ true)
    × (is_set res.server ≡ true)
    × (is_valid_server env res.server ≡ true)
ModeNeeds OutputMode.venafi_connection env cfg flags res =
    (is_set res.ven_conn_name ≡ true)
    × (is_set res.ven_conn_ns ≡ true)
    × (is_set res.install_ns ≡ true)
    × (is_set res.cluster_name ≡ true)
    × (is_set res.server ≡ false)
ModeNeeds OutputMode.jetstack_secure_oauth env cfg flags res =
    (is_set flags.credentials_path ≡ true)
    × (is_set res.organization_id ≡ true)
    × (is_set res.cluster_id ≡ true)
    × (is_set res.server ≡ true)
    × (is_valid_server env res.server ≡ true)
ModeNeeds OutputMode.jetstack_secure_api_token env cfg flags res =
    (is_set flags.api_token ≡ true)
    × (is_set res.organization_id ≡ true)
    × (is_set res.cluster_id ≡ true)
    × (is_set res.server ≡ true)
    × (is_valid_server env res.server ≡ true)
ModeNeeds OutputMode.machine_hub env cfg flags res = flags.machine_hub_mode ≡ true
ModeNeeds OutputMode.local_file env cfg flags res = is_set res.output_path ≡ true

-- The needs of each mode, from the checks of its sections.
combine-needs :
    (env : Environment) (cfg : Config) (flags : AgentCmdFlags) (mode : OutputMode)
    → select_mode cfg flags ≡ ok mode
    → NoErrors env cfg flags mode
    → ModeNeeds mode env cfg flags (combine env cfg flags mode).value
unfolding combine combine_upload_path combine_cluster combine_ven_conn mode_errors default_server
    configured_server mode_server kept_server combine_server
combine-needs env cfg flags OutputMode.ngts s n =
    let c = ngts_checks cfg flags n.mode_fine in
    let named = error_if-nil _ _ n.cluster_fine in
    let served = error_if-nil _ _ n.server_fine in
    (
      select-ngts cfg flags s,
      c.no_venafi_cloud,
      c.no_organization_id,
      c.no_cluster_id,
      (ground arith),
      (ground arith),
      (ground arith),
      c.no_machine_hub,
      c.no_ven_conn,
      (ground arith),
      c.no_api_token,
      (ground arith),
      refl,
      refl,
    )
combine-needs env cfg flags OutputMode.venafi_cloud_keypair s n =
    let (there, valid) =
      server_needs env OutputMode.venafi_cloud_keypair cfg refl refl refl n.server_fine in
    (
      select-keypair cfg flags s,
      keypair_upload_path-set env cfg.venafi_cloud n.upload_path_fine,
      venafi_cluster-name cfg n.cluster_fine,
      there,
      valid,
    )
combine-needs env cfg flags OutputMode.venafi_connection s n =
    let name = select-venafi_connection cfg flags s in
    let install = install_ns-set env flags n.install_ns_fine in
    (name, ground arith, install, venafi_cluster-name cfg n.cluster_fine, refl)
combine-needs env cfg flags OutputMode.jetstack_secure_oauth s n =
    let (organization, cluster) = jetstack_cluster-ids cfg n.cluster_fine in
    let (there, valid) =
      server_needs env OutputMode.jetstack_secure_oauth cfg refl refl refl n.server_fine in
    (select-oauth cfg flags s, organization, cluster, there, valid)
combine-needs env cfg flags OutputMode.jetstack_secure_api_token s n =
    let (organization, cluster) = jetstack_cluster-ids cfg n.cluster_fine in
    let (there, valid) =
      server_needs env OutputMode.jetstack_secure_api_token cfg refl refl refl n.server_fine in
    (select-api_token cfg flags s, organization, cluster, there, valid)
combine-needs env cfg flags OutputMode.machine_hub s n = select-machine_hub cfg flags s
combine-needs env cfg flags OutputMode.local_file s n =
    unfold flag_or in (select-local_file cfg flags s)

-- A configuration is accepted only if it has what its output mode needs: the flags that select it and, in
-- the modes that use them, its credentials, a valid server, and the names of its cluster. With --ngts, the
-- flags and fields that the mode refuses are not set.
pub combine_config-needs :
    (env : Environment) (cfg : Config) (flags : AgentCmdFlags) (res : CombinedConfig)
    → combine_config env cfg flags ≡ ok res
    → ModeNeeds res.output_mode env cfg flags res
combine_config-needs env cfg flags res h =
    let (mode, chosen, fine, same) = combine_config-inv env cfg flags res h in
    subst (λ r. ModeNeeds r.output_mode env cfg flags r) same
      (unfold combine in
        (combine-needs env cfg flags mode chosen (no_errors env cfg flags mode fine)))
