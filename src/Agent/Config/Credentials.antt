-- ===== src/Agent/Config/Credentials.antt =====
-- The credentials that a client of Venafi Cloud is created from.
use jetstack_secure.Prelude.{
  String, ◌≡◌, refl, ◌∙◌, true, false, some, List, [], ◌∷◌, ◌==◌, is_set, Bool-cases, inl, inr, ◌⊎◌,
}
use jetstack_secure.Prelude.Results.{Result, ok, err, Result-cases}
use jetstack_secure.Agent.Config.{AgentCmdFlags, CombinedConfig}
use jetstack_secure.Agent.Config.Errors.{ConfigError}
use jetstack_secure.Agent.Config.Combine.{
  ClientFactory, as_client, in_credentials_file, load_venafi_credentials, after_errors,
  client_of_file, venafi_cloud_client,
}

module _ (clients : ClientFactory) where
  open clients use {Client}

  -- A key pair, from the flags alone.
  pub record FromFlags (flags : AgentCmdFlags) (cfg : CombinedConfig) (c : Client) : Type 0 where
    pub has_client_id : is_set flags.client_id ≡ true
    pub has_private_key : is_set flags.private_key_path ≡ true
    pub has_no_file : is_set flags.credentials_path ≡ false
    pub is_created :
        clients.new_venafi_cloud_client cfg.cluster_id
          (some (clients.venafi_keypair flags.client_id flags.private_key_path))
          cfg.server
          "no"
          cfg.upload_path
        ≡ ok c

  -- The credentials file alone.
  pub record FromFile (flags : AgentCmdFlags) (cfg : CombinedConfig) (c : Client) : Type 0 where
    pub has_file : is_set flags.credentials_path ≡ true
    pub has_no_client_id : is_set flags.client_id ≡ false
    pub has_no_private_key : is_set flags.private_key_path ≡ false
    pub credentials : clients.VenafiCredentials
    pub is_loaded : load_venafi_credentials clients flags ≡ ok credentials
    pub is_created :
        clients.new_venafi_cloud_client cfg.cluster_id
          (some credentials)
          cfg.server
          "no"
          cfg.upload_path
        ≡ ok c

  as_client-inv : (r : Result String Client) (c : Client) → as_client clients r ≡ ok c → r ≡ ok c
  unfolding as_client
  as_client-inv (ok d) c h = cc
  as_client-inv (err e) c h = cc

  -- A client comes from a file that failed to load only where there is no error to add to.
  after_errors-inv :
      (es : List ConfigError) (r : Result String Client) (c : Client)
      → after_errors clients es r ≡ ok c
      → es ≡ []
  unfolding after_errors
  after_errors-inv [] r c h = refl
  after_errors-inv (e ∷ es) (ok d) c h = cc
  after_errors-inv (e ∷ es) (err f) c h = cc

  in_credentials_file-err :
      {A : Type 0} (r : Result String A) (es : List ConfigError)
      → in_credentials_file clients r ≡ err es
      → es ≡ []
      → ⊥
  unfolding in_credentials_file
  in_credentials_file-err (ok a) es h e = cc
  in_credentials_file-err (err f) es h e = cc

  load-err :
      (flags : AgentCmdFlags) (es : List ConfigError)
      → load_venafi_credentials clients flags ≡ err es
      → es ≡ []
      → ⊥
  unfolding load_venafi_credentials
  load-err flags es h e =
      elim (Result-cases
        (in_credentials_file clients (clients.read_credentials_file flags.credentials_path))) [
          | inl (bytes, read) ↦
              in_credentials_file-err (clients.parse_venafi_credentials bytes) es (rw read at h) e
          | inr (fs, failed) ↦
              in_credentials_file-err (clients.read_credentials_file flags.credentials_path) fs
                failed
                (let h' = rw (failed, load_venafi_credentials) at h in
                  let same : fs ≡ es = cc in same ∙ e)
        ]

  client_of_file-inv :
      (flags : AgentCmdFlags) (cfg : CombinedConfig) (c : Client)
      → client_of_file clients cfg (load_venafi_credentials clients flags) ≡ ok c
      → (creds : clients.VenafiCredentials) × (load_venafi_credentials clients flags ≡ ok creds)
        × (clients.new_venafi_cloud_client cfg.cluster_id
              (some creds)
              cfg.server
              "no"
              cfg.upload_path
            ≡ ok c)
  unfolding client_of_file
  client_of_file-inv flags cfg c h = elim (Result-cases (load_venafi_credentials clients flags)) [
    | inl (creds, loaded) ↦ (creds, loaded, as_client-inv _ c (rw (loaded, client_of_file) at h))
    | inr (es, failed) ↦
        absurd
          (load-err flags es failed (after_errors-inv es _ c (rw (failed, client_of_file) at h)))
  ]

  -- A client of Venafi Cloud is created from the flags alone, or from a credentials file that has been read
  -- and parsed, and never from both or from neither.
  pub venafi_cloud_client-inv :
      (flags : AgentCmdFlags) (cfg : CombinedConfig) (c : Client)
      → venafi_cloud_client clients flags cfg ≡ ok c
      → FromFlags flags cfg c ⊎ FromFile flags cfg c
  unfolding venafi_cloud_client
  venafi_cloud_client-inv flags cfg c h = elim (Bool-cases (flags.credentials_path == "")) [
    | inl f ↦ elim (Bool-cases (flags.client_id == "")) [
      | inl i ↦ elim (Bool-cases (flags.private_key_path == "")) [
        | inl k ↦ let h' = rw (f, i, k, venafi_cloud_client) at h in cc
        | inr k ↦ let h' = rw (f, i, k, venafi_cloud_client) at h in cc
      ]
      | inr i ↦ elim (Bool-cases (flags.private_key_path == "")) [
        | inl k ↦ let h' = rw (f, i, k, venafi_cloud_client) at h in cc
        | inr k ↦ inl (record {
          has_client_id = rw i refl;
          has_private_key = rw k refl;
          has_no_file = rw f refl;
          is_created = as_client-inv _ c (rw (f, i, k, venafi_cloud_client) at h);
        })
      ]
    ]
    | inr f ↦ elim (Bool-cases (flags.client_id == "")) [
      | inl i ↦ elim (Bool-cases (flags.private_key_path == "")) [
        | inl k ↦
            let (creds, loaded, created) =
              client_of_file-inv flags cfg c (rw (f, i, k, venafi_cloud_client) at h) in
            inr (record {
              has_file = rw f refl;
              has_no_client_id = rw i refl;
              has_no_private_key = rw k refl;
              credentials = creds;
              is_loaded = loaded;
              is_created = created;
            })
        | inr k ↦ let h' = rw (f, i, k, venafi_cloud_client) at h in cc
      ]
      | inr i ↦ let h' = rw (f, i, venafi_cloud_client) at h in cc
    ]
  ]
