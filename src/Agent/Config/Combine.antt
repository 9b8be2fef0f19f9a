-- ===== src/Agent/Config/Combine.antt =====
-- pkg/agent/config.go: `ValidateAndCombineConfig` and `validateCredsAndCreateClient`, over the
-- constructors of the clients.
use jetstack_secure.Prelude.{
  String, ◌&&◌, Option, none, some, List, [], ◌∷◌, ◌++◌, ◌==◌, is_set, if◌then◌else◌,
}
use jetstack_secure.Prelude.Results.{Result, ok, err, ◌>>=◌}
use jetstack_secure.Prelude.Lists.{is_empty}
use jetstack_secure.Agent.Config.{Config, AgentCmdFlags, OutputMode, CombinedConfig, Environment}
use jetstack_secure.Agent.Config.Errors.{ConfigError}
use jetstack_secure.Agent.Config.Mode.{select_mode, mode_errors}
use jetstack_secure.Agent.Config.Sections.{
  Checked, combine_server, combine_upload_path, combine_cluster,
}
use jetstack_secure.Agent.Config.Settings.{
  validate_data_gatherers, combine_period, combine_install_ns, combine_ven_conn, flag_or,
  compile_all,
}

-- The clients that the configuration can create, with the parsers of their credentials. The agent's
-- metadata, of which only the cluster's id varies, is their first argument.
pub record ClientFactory : Type 1 where
  pub Client : Type 0
  pub OauthCredentials : Type 0
  pub VenafiCredentials : Type 0
  pub read_credentials_file : String → Result String String
  pub parse_oauth_credentials : String → Result String OauthCredentials
  pub parse_venafi_credentials : String → Result String VenafiCredentials
  -- The credentials made from --client-id and --private-key-path.
  pub venafi_keypair : String → String → VenafiCredentials
  pub RestConfig : Type 0
  pub load_rest_config : Result String RestConfig
  pub new_oauth_client : String → OauthCredentials → String → Result String Client
  pub new_api_token_client : String → String → String → Result String Client
  -- Credentials, which may be nil, server, uploader id and upload path.
  pub new_venafi_cloud_client :
      String → Option VenafiCredentials → String → String → String → Result String Client
  -- Install namespace, and the name and namespace of the connection.
  pub new_ven_conn_client : RestConfig → String → String → String → String → Result String Client
  pub new_file_client : String → Client
  pub new_cyber_ark : Result String Client
  -- Client id, private key file, server and TSG id.
  pub new_ngts_client : String → String → String → String → String → Result String Client

-- The NGTS fields are set in that mode alone.
unfoldable pub ngts_field : OutputMode → String → String
ngts_field OutputMode.ngts value = value
ngts_field _ value = ""

-- The combined configuration, with the errors of all the sections in the source's order.
unfoldable pub combine : Environment → Config → AgentCmdFlags → OutputMode → Checked CombinedConfig
unfolding ngts_field
combine env cfg flags mode =
    let ngts_server_url = ngts_field mode flags.ngts_server_url in
    let server = combine_server env mode ngts_server_url cfg in
    let upload_path = combine_upload_path env mode cfg in
    let cluster = combine_cluster env mode cfg in
    let period = combine_period cfg flags in
    let install_ns = combine_install_ns env mode flags in
    let ven_conn = combine_ven_conn mode install_ns.value flags in
    let annotations =
      compile_all env ConfigError.invalid_annotation_regex 0 cfg.exclude_annotation_keys_regex in
    let labels = compile_all env ConfigError.invalid_label_regex 0 cfg.exclude_label_keys_regex in
    record {
      value = record {
        data_gatherers = cfg.data_gatherers;
        period = period.value;
        backoff_max_time = flags.backoff_max_time;
        install_ns = install_ns.value;
        strict_mode = flags.strict_mode;
        one_shot = flags.one_shot;
        output_mode = mode;
        cluster_id = cluster.value.id;
        server = server.value.0;
        organization_id = cluster.value.organization_id;
        endpoint_path = server.value.1;
        upload_path = upload_path.value;
        cluster_name = cluster.value.name;
        cluster_description = cfg.cluster_description;
        claimable_certs = cfg.claimable_certs;
        ven_conn_name = ven_conn.0;
        ven_conn_ns = ven_conn.1;
        exclude_annotation_keys_regex = annotations.value;
        exclude_label_keys_regex = labels.value;
        tsg_id = ngts_field mode flags.tsg_id;
        ngts_server_url = ngts_server_url;
        output_path = flag_or flags.output_path cfg.output_path;
        input_path = flag_or flags.input_path cfg.input_path;
      };
      errors =
          mode_errors mode cfg flags
          ++ (server.errors
              ++ (upload_path.errors
                  ++ (cluster.errors
                      ++ (validate_data_gatherers cfg.data_gatherers
                          ++ (period.errors
                              ++ (install_ns.errors ++ (annotations.errors ++ labels.errors)))))));
    }

unfoldable pub finish_combine : Checked CombinedConfig → Result (List ConfigError) CombinedConfig
finish_combine c = if is_empty c.errors then ok c.value else err c.errors

-- `ValidateAndCombineConfig`, up to the creation of the client.
unfoldable pub combine_config :
    Environment → Config → AgentCmdFlags → Result (List ConfigError) CombinedConfig
unfolding combine finish_combine
combine_config env cfg flags = elim (select_mode cfg flags) [
  | err e ↦ err (e ∷ [])
  | ok mode ↦ finish_combine (combine env cfg flags mode)
]

module _ (clients : ClientFactory) where
  open clients use {Client}

  unfoldable pub as_client : Result String Client → Result (List ConfigError) Client
  as_client (ok c) = ok c
  as_client (err e) = err (ConfigError.client e ∷ [])

  unfoldable pub in_credentials_file {ℓ} :
      {A : Type ℓ} → Result String A → Result (List ConfigError) A
  in_credentials_file (ok a) = ok a
  in_credentials_file (err e) = err (ConfigError.credentials_file e ∷ [])

  unfoldable pub in_kubeconfig {ℓ} : {A : Type ℓ} → Result String A → Result (List ConfigError) A
  in_kubeconfig (ok a) = ok a
  in_kubeconfig (err e) = err (ConfigError.loading_kubeconfig e ∷ [])

  -- The credentials file, read and parsed.
  unfoldable pub load_venafi_credentials :
      AgentCmdFlags → Result (List ConfigError) clients.VenafiCredentials
  unfolding in_credentials_file
  load_venafi_credentials flags =
      in_credentials_file (clients.read_credentials_file flags.credentials_path) >>= λ bytes.
      in_credentials_file (clients.parse_venafi_credentials bytes)

  -- Errors that are there already, and that of the client.
  unfoldable pub after_errors :
      List ConfigError → Result String Client → Result (List ConfigError) Client
  after_errors [] (ok c) = ok c
  after_errors (e ∷ es) (ok c) = err (e ∷ es)
  after_errors es (err e) = err (es ++ ConfigError.client e ∷ [])

  -- The `break` on an unusable credentials file leaves the inner `switch` alone, so the client is
  -- constructed all the same, from nil credentials.
  unfoldable pub client_of_file :
      CombinedConfig
      → Result (List ConfigError) clients.VenafiCredentials
      → Result (List ConfigError) Client
  unfolding as_client after_errors
  client_of_file cfg (ok creds) =
      as_client (
        clients.new_venafi_cloud_client cfg.cluster_id (some creds) cfg.server "no" cfg.upload_path)
  client_of_file cfg (err es) =
      after_errors es
        (clients.new_venafi_cloud_client cfg.cluster_id none cfg.server "no" cfg.upload_path)

  unfoldable pub venafi_cloud_client :
      AgentCmdFlags → CombinedConfig → Result (List ConfigError) Client
  unfolding load_venafi_credentials as_client client_of_file
  venafi_cloud_client flags cfg =
      if is_set flags.client_id && is_set flags.credentials_path
      then err (ConfigError.client_id_with_credentials_file ∷ [])
      else if is_set flags.private_key_path && is_set flags.credentials_path
      then err (ConfigError.private_key_with_credentials_file ∷ [])
      else if flags.client_id == "" && flags.private_key_path == "" && flags.credentials_path == ""
      then err (ConfigError.no_credentials ∷ [])
      else if is_set flags.client_id && is_set flags.private_key_path
      then as_client (
          clients.new_venafi_cloud_client cfg.cluster_id
            (some (clients.venafi_keypair flags.client_id flags.private_key_path)) cfg.server "no"
            cfg.upload_path)
      else if is_set flags.credentials_path
      then client_of_file cfg (load_venafi_credentials flags)
      else err (ConfigError.programmer_mistake ∷ [])

  -- `validateCredsAndCreateClient`.
  unfoldable pub create_client :
      OutputMode → AgentCmdFlags → CombinedConfig → Result (List ConfigError) Client
  unfolding venafi_cloud_client as_client in_credentials_file in_kubeconfig
  create_client OutputMode.jetstack_secure_oauth flags cfg = do
    bytes ← in_credentials_file (clients.read_credentials_file flags.credentials_path)
    creds ← in_credentials_file (clients.parse_oauth_credentials bytes)
    as_client (clients.new_oauth_client cfg.cluster_id creds cfg.server)
  create_client OutputMode.venafi_cloud_keypair flags cfg = venafi_cloud_client flags cfg
  create_client OutputMode.venafi_connection flags cfg = do
    rest ← in_kubeconfig clients.load_rest_config
    as_client (
        clients.new_ven_conn_client rest cfg.cluster_id cfg.install_ns cfg.ven_conn_name
          cfg.ven_conn_ns)
  create_client OutputMode.jetstack_secure_api_token flags cfg =
      as_client (clients.new_api_token_client cfg.cluster_id flags.api_token cfg.server)
  create_client OutputMode.local_file flags cfg = ok (clients.new_file_client cfg.output_path)
  create_client OutputMode.machine_hub flags cfg = as_client clients.new_cyber_ark
  create_client OutputMode.ngts flags cfg =
      if flags.private_key_path == ""
      then err (ConfigError.ngts_needs_private_key ∷ [])
      else as_client (
          clients.new_ngts_client cfg.cluster_id flags.client_id flags.private_key_path cfg.server
            cfg.tsg_id)

  -- `ValidateAndCombineConfig`.
  unfoldable pub validate_and_combine_config :
      Environment → Config → AgentCmdFlags → Result (List ConfigError) (CombinedConfig × Client)
  unfolding combine_config create_client
  validate_and_combine_config env cfg flags = do
    res ← combine_config env cfg flags
    c ← create_client res.output_mode flags res
    ok (res, c)
