-- ===== src/Agent/Config/Mode.antt =====
-- pkg/agent/config.go: the choice of the output mode, and the checks of the NGTS mode.
use jetstack_secure.Prelude.{
  Bool, true, false, not, ◌&&◌, ◌||◌, List, [], ◌∷◌, ◌++◌, ◌==◌, is_set, if◌then◌else◌,
}
use jetstack_secure.Prelude.Results.{Result, ok, err}
use jetstack_secure.Agent.Config.{Config, AgentCmdFlags, OutputMode}
use jetstack_secure.Agent.Config.Errors.{ConfigError}

-- The case of --client-id and --private-key-path: each wants the other.
unfoldable pub keypair_mode : AgentCmdFlags → Result ConfigError OutputMode
keypair_mode flags =
    if flags.private_key_path == ""
    then err ConfigError.client_id_without_private_key
    else if flags.client_id == ""
    then err ConfigError.private_key_without_client_id
    else ok OutputMode.venafi_cloud_keypair

unfoldable pub select_mode : Config → AgentCmdFlags → Result ConfigError OutputMode
unfolding keypair_mode
select_mode cfg flags =
    if flags.ngts_mode
    then ok OutputMode.ngts
    else if flags.venafi_cloud_mode && is_set flags.credentials_path
    then ok OutputMode.venafi_cloud_keypair
    else if is_set flags.client_id || is_set flags.private_key_path
    then keypair_mode flags
    else if is_set flags.ven_conn_name
    then ok OutputMode.venafi_connection
    else if is_set flags.api_token
    then ok OutputMode.jetstack_secure_api_token
    else if not flags.venafi_cloud_mode && is_set flags.credentials_path
    then ok OutputMode.jetstack_secure_oauth
    else if flags.machine_hub_mode
    then ok OutputMode.machine_hub
    else if is_set flags.output_path
    then ok OutputMode.local_file
    else if is_set cfg.output_path
    then ok OutputMode.local_file
    else err ConfigError.no_output_mode

-- `if test { errs = append(errs, e) }`.
unfoldable pub error_if : Bool → ConfigError → List ConfigError
error_if true e = e ∷ []
error_if false e = []

unfoldable pub ngts_errors : Config → AgentCmdFlags → List ConfigError
unfolding error_if
ngts_errors cfg flags =
    error_if (is_set flags.tsg_id && is_set flags.ngts_server_url) ConfigError.tsg_id_and_server_url
    ++ (error_if (flags.tsg_id == "" && flags.ngts_server_url == "")
          ConfigError.no_tsg_id_or_server_url
        ++ (error_if (flags.private_key_path == "") ConfigError.ngts_needs_private_key
            ++ (error_if flags.machine_hub_mode ConfigError.ngts_with_machine_hub
                ++ (error_if (is_set flags.ven_conn_name) ConfigError.ngts_with_venafi_connection
                    ++ (error_if (not flags.venafi_cloud_mode && is_set flags.credentials_path)
                          ConfigError.ngts_with_credentials_file
                        ++ (error_if (is_set flags.api_token) ConfigError.ngts_with_api_token
                            ++ (error_if flags.venafi_cloud_mode ConfigError.ngts_with_venafi_cloud
                                ++ (error_if (is_set cfg.organization_id)
                                      ConfigError.ngts_with_organization_id
                                    ++ error_if (is_set cfg.cluster_id)
                                        ConfigError.ngts_with_cluster_id))))))))

-- The checks that only the NGTS mode makes.
unfoldable pub mode_errors : OutputMode → Config → AgentCmdFlags → List ConfigError
mode_errors OutputMode.ngts cfg flags = ngts_errors cfg flags
mode_errors _ cfg flags = []
