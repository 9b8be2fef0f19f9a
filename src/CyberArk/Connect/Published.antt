-- ===== src/CyberArk/Connect/Published.antt =====
-- What a snapshot that is published to CyberArk has gone through, from the environment to the bucket.
use mathlib.Core.List.{Memᴰ}
use jetstack_secure.Prelude.{
  ℕ, String, ◌≡◌, ◌≢◌, refl, sym, ap, ◌∙◌, subst, true, false, ◌||◌, Option, none, some, List,
  Bool-cases, inl, inr, ◌==◌, arith, eq_iff,
}
use jetstack_secure.Prelude.Results.{Result, ok, err, map_err_ok}
use jetstack_secure.K8sDynamic.Resources.{Resource}
use jetstack_secure.CyberArk.Snapshot.{Snapshot, DataReading, default_extractor_functions, names}
use jetstack_secure.CyberArk.Snapshot.Complete.{IsRead}
use jetstack_secure.CyberArk.Minimize.{Decoders, is_excludable_secret}
use jetstack_secure.CyberArk.Publish.{Options}
use jetstack_secure.CyberArk.Publish.Uploaded.{
  post_data_readings_with_options-IsPosted, post_data_readings_with_options_ok,
}
use jetstack_secure.CyberArk.ServiceDiscovery.{Services, DiscoveryClient, discover_services}
use jetstack_secure.CyberArk.Identity.{Client, IdentityError, is_fresh}
use jetstack_secure.CyberArk.Identity.Login.{IsGranted, login_username_password_ok}
use jetstack_secure.CyberArk.Upload.{CyberArkClient, UploadError}
use jetstack_secure.CyberArk.Upload.Stored.{IsStored, put_snapshot-IsStored}
use jetstack_secure.CyberArk.Connect.{
  ClientConfig, Network, Clock, load_client_config_from_environment, new_identity_client,
  new_cyber_ark_client, client_after_login, new_dataupload_client, publisher_of, publish,
  upload_error,
}

-- The configuration is that of the environment, and complete.
pub record IsConfigured (getenv : String → String) (cfg : ClientConfig) : Type 0 where
  pub is_subdomain : cfg.subdomain ≡ getenv "ARK_SUBDOMAIN"
  pub is_username : cfg.username ≡ getenv "ARK_USERNAME"
  pub is_secret : cfg.secret ≡ getenv "ARK_SECRET"
  pub has_subdomain : cfg.subdomain ≢ ""
  pub has_username : cfg.username ≢ ""
  pub has_secret : cfg.secret ≢ ""

-- The client of an identity service after a login.
abbrev pub logged_in_as : String → String → String → ℕ → Client
logged_in_as subdomain username token instant = record {
  subdomain = subdomain;
  token_cached = record { username = username; token = token };
  token_cached_time = instant;
}

load_client_config_from_environment-IsConfigured :
    (getenv : String → String) (cfg : ClientConfig)
    → load_client_config_from_environment getenv ≡ ok cfg
    → IsConfigured getenv cfg
unfolding load_client_config_from_environment
load_client_config_from_environment-IsConfigured getenv cfg h =
    let subdomain = getenv "ARK_SUBDOMAIN" in
    let username = getenv "ARK_USERNAME" in
    let secret = getenv "ARK_SECRET" in
    elim (Bool-cases (subdomain == "" || (username == "" || secret == ""))) [
      | inl missing ↦ let h' = rw missing at h in cc
      | inr there ↦
          let h' = rw there at h in
          let same : record { subdomain = subdomain; username = username; secret = secret } ≡ cfg =
            cc in
          subst (IsConfigured getenv) same (record {
            is_subdomain = refl;
            is_username = refl;
            is_secret = refl;
            has_subdomain = λ e. let empty = (eq_iff subdomain "").1 e in ground arith;
            has_username = λ e. let empty = (eq_iff username "").1 e in ground arith;
            has_secret = λ e. let empty = (eq_iff secret "").1 e in ground arith;
          })
    ]

module _ (network : Network) where
  -- The client was made from both APIs, after a login that the server granted to the password.
  pub record IsConnected (clock : Clock) (services : Services) (tenant : String)
      (cfg : ClientConfig) (client : CyberArkClient) : Type 0 where
    pub token : String
    pub has_identity : services.identity.api ≢ ""
    pub has_context : services.discovery_context.api ≢ ""
    pub is_granted :
        IsGranted
          (network.identity_at services.identity.api)
          (new_identity_client cfg.subdomain)
          cfg.username
          (network.bytes cfg.secret)
          token
    pub is_client :
        client
        ≡ new_cyber_ark_client network services.discovery_context.api tenant
            (logged_in_as cfg.subdomain cfg.username token clock.logged_in)

  -- The way of a snapshot that was published.
  pub record IsPublished (decoders : Decoders) (clock : Clock) (readings : List DataReading)
      (discovery_client : DiscoveryClient) (s : Snapshot) : Type 0 where
    pub cfg : ClientConfig
    pub services : Services
    pub tenant : String
    pub client : CyberArkClient
    pub is_configured : IsConfigured network.getenv cfg
    pub is_discovered :
        (discover_services network.directory clock.discovering clock.discovered discovery_client).0
        ≡ ok (services, tenant)
    pub is_connected : IsConnected clock services tenant cfg client
    pub is_stored : IsStored client network.library s
    pub is_complete : (k : String) → Memᴰ k (names default_extractor_functions) → IsRead readings k
    pub is_minimal : (r : Resource) → Memᴰ r s.secrets → is_excludable_secret decoders r ≡ false

  client_after_login-ok :
      (api tenant : String) (r : Option IdentityError × Client) (client : CyberArkClient)
      → client_after_login network api tenant r ≡ ok client
      → (r.0 ≡ none) × (new_cyber_ark_client network api tenant r.1 ≡ client)
  unfolding client_after_login
  client_after_login-ok api tenant (none, c) client h = (refl, cc)
  client_after_login-ok api tenant (some e, c) client h = cc

  new_identity_client-stale :
      (subdomain username : String) (now : ℕ)
      → username ≢ ""
      → is_fresh (new_identity_client subdomain) now username ≡ true
      → ⊥
  unfolding new_identity_client is_fresh
  new_identity_client-stale subdomain username now set fresh =
      set (sym ((eq_iff "" username).0 (ground arith)))

  new_dataupload_client-IsConnected :
      (clock : Clock) (services : Services) (tenant : String) (cfg : ClientConfig)
      (client : CyberArkClient)
      → cfg.username ≢ ""
      → new_dataupload_client network clock (services, tenant) cfg ≡ ok client
      → IsConnected clock services tenant cfg client
  unfolding new_dataupload_client
  new_dataupload_client-IsConnected clock services tenant cfg client set h =
      elim (Bool-cases (services.identity.api == "")) [
        | inl empty ↦ let h' = rw (empty, new_dataupload_client) at h in cc
        | inr identity ↦ elim (Bool-cases (services.discovery_context.api == "")) [
          | inl empty ↦ let h' = rw (identity, empty, new_dataupload_client) at h in cc
          | inr context ↦
              let (passed, made) =
                client_after_login-ok services.discovery_context.api tenant _ client
                  (rw (identity, context, new_dataupload_client) at h) in
              elim (login_username_password_ok (network.identity_at services.identity.api)
                clock.checked clock.logged_in (new_identity_client cfg.subdomain) cfg.username
                (network.bytes cfg.secret) passed) [
                  | inl (fresh, _) ↦
                      absurd (
                        new_identity_client-stale cfg.subdomain cfg.username clock.checked set
                          fresh)
                  | inr (token, granted, after) ↦ record {
                    token = token;
                    has_identity =
                        λ e. let none_there = (eq_iff services.identity.api "").1 e in cc;
                    has_context =
                        λ e. let none_there = (eq_iff services.discovery_context.api "").1 e in cc;
                    is_granted = granted;
                    is_client =
                        sym made
                        ∙ ap (new_cyber_ark_client network services.discovery_context.api tenant)
                            after;
                  }
                ]
        ]
      ]

  upload_error-none :
      (r : Result UploadError (Unit {0})) → upload_error network.upload_message r ≡ none → r ≡ ok tt
  unfolding upload_error
  upload_error-none (ok done) h = refl
  upload_error-none (err e) h = cc

  -- A snapshot that was published without an error has gone this way: the environment has the whole
  -- configuration; the service discovery gave the two APIs, neither of them empty; the identity service
  -- granted a token to the user's secret; with the token, the snapshot was stored, whose cluster is named;
  -- every gatherer with an extractor was read; and no secret of the snapshot is excludable.
  pub publish-IsPublished :
      (decoders : Decoders) (clock : Clock) (readings : List DataReading) (opts : Options)
      (discovery_client : DiscoveryClient) (s : Snapshot)
      → (publish network decoders clock readings opts discovery_client).0 ≡ ok s
      → IsPublished decoders clock readings discovery_client s
  unfolding publish publisher_of
  publish-IsPublished decoders clock readings opts discovery_client s h =
      let publisher = publisher_of network clock discovery_client in
      let posted = post_data_readings_with_options-IsPosted decoders publisher readings opts s h in
      let (_, complete, minimal) =
        post_data_readings_with_options_ok decoders publisher readings opts s h in
      let configured =
        load_client_config_from_environment-IsConfigured network.getenv posted.cfg
          posted.is_config in
      record {
        cfg = posted.cfg;
        services = posted.services.0;
        tenant = posted.services.1;
        client = posted.upload;
        is_configured = configured;
        is_discovered = map_err_ok network.discovery_message _ posted.is_discovered;
        is_connected =
            new_dataupload_client-IsConnected clock posted.services.0 posted.services.1 posted.cfg
              posted.upload configured.has_username posted.is_made;
        is_stored =
            put_snapshot-IsStored posted.upload network.library s tt
              (upload_error-none _ posted.is_put);
        is_complete = complete;
        is_minimal = minimal;
      }
