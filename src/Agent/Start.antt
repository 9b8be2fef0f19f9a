-- ===== src/Agent/Start.antt =====
-- pkg/agent/run.go: what `Run` does before the loop: the encryptor, the recorder of events, and the
-- gatherers, with what the configuration adds to them.
pub mod Sealed
pub mod Sealing
use jetstack_secure.Prelude.{
  String, Bool, true, false, ◌&&◌, ◌||◌, Option, none, some, List, [], ◌∷◌, ◌++◌, ◌==◌, is_set,
  if◌then◌else◌,
}
use jetstack_secure.Prelude.Results.{Result, ok, err, ◌>>=◌}
use jetstack_secure.K8sDynamic.Resources.{GroupVersionResource}
use jetstack_secure.K8sDynamic.Redaction.{Encryptor, Redactor}
use jetstack_secure.K8sDynamic.Fetch as K8sDynamicFetch
use jetstack_secure.Agent.Config.{CombinedConfig, DataGatherer}

-- The type of the client, as far as `Run` tests it.
pub data ClientKind : Type 0 where
  cyber_ark ven_conn other_client : ClientKind

unfoldable pub is_cyber_ark : ClientKind → Bool
is_cyber_ark ClientKind.cyber_ark = true
is_cyber_ark _ = false

-- What an encryptor is made from: the configuration of the client, and the constructors of keyfetch and rsa.
pub record EncryptorParts : Type 1 where
  pub ClientConfig : Type 0
  pub Fetcher : Type 0
  pub config : Result String ClientConfig
  pub new_fetcher : ClientConfig → Result String Fetcher
  pub new_encryptor : Fetcher → Result String Encryptor

pub data LoadError : Type 0 where
  not_supported : LoadError
  no_config no_fetcher no_encryptor : String → LoadError

unfoldable pub wrapped {ℓ} :
    {A : Type ℓ} → (String → LoadError) → Result String A → Result LoadError A
wrapped f (ok a) = ok a
wrapped f (err e) = err (f e)

unfoldable pub load_encryptor : EncryptorParts → ClientKind → Result LoadError Encryptor
unfolding wrapped
load_encryptor parts ClientKind.cyber_ark = do
  cfg ← wrapped LoadError.no_config parts.config
  fetcher ← wrapped LoadError.no_fetcher (parts.new_fetcher cfg)
  wrapped LoadError.no_encryptor (parts.new_encryptor fetcher)
load_encryptor parts _ = err LoadError.not_supported

unfoldable pub loaded : Result LoadError Encryptor → Option Encryptor
loaded (ok encryptor) = some encryptor
loaded (err e) = none

-- The encryptor where `encryptSecrets` is true, from the value of ARK_SEND_SECRET_VALUES.
unfoldable pub secrets_encryptor :
    (String → String) → String → Result LoadError Encryptor → Option Encryptor
unfolding loaded
secrets_encryptor to_lower value loading = if to_lower value == "true" then loaded loading else none

-- A gatherer that `NewDataGatherer` made.
pub data Gatherer : Type 0 where
  dynamic : K8sDynamicFetch.DataGatherer → Gatherer
  other : String → Gatherer

unfoldable pub is_core_secrets : GroupVersionResource → Bool
is_core_secrets gvr = gvr.resource == "secrets" && gvr.group == ""

-- The encryptor, if there is one and the gatherer reads the secrets of the core API.
unfoldable pub sealed_by :
    Option Encryptor → GroupVersionResource → Option Encryptor → Option Encryptor
unfolding is_core_secrets
sealed_by none gvr before = before
sealed_by (some encryptor) gvr before = if is_core_secrets gvr then some encryptor else before

unfoldable pub configure : Option Encryptor → ClientKind → CombinedConfig → Gatherer → Gatherer
unfolding sealed_by is_core_secrets is_cyber_ark
configure encryptor kind config (Gatherer.other name) = Gatherer.other name
configure encryptor kind config (Gatherer.dynamic g) = Gatherer.dynamic (record g {
  redactor = record {
    exclude_annot_keys = g.redactor.exclude_annot_keys ++ config.exclude_annotation_keys_regex;
    exclude_label_keys = g.redactor.exclude_label_keys ++ config.exclude_label_keys_regex;
    encryptor = sealed_by encryptor g.group_version_resource g.redactor.encryptor;
    include_last_modified_time =
        is_cyber_ark kind && is_core_secrets g.group_version_resource
        || g.redactor.include_last_modified_time;
  };
})

pub data StartError : Type 0 where
  -- The name, the kind and the path.
  data_path : String → String → String → StartError
  -- The kind, the name and the error.
  instantiating : String → String → String → StartError

-- `dataGatherers[name] = newDg`.
unfoldable pub assign {ℓ} : {A : Type ℓ} → String → A → List (String × A) → List (String × A)
assign name a [] = (name, a) ∷ []
assign name a ((key, b) ∷ rest) =
    let later = assign name a rest in if key == name then (name, a) ∷ rest else (key, b) ∷ later

module _ (new_data_gatherer : DataGatherer → Result String Gatherer) (encryptor : Option Encryptor)
    (kind : ClientKind) (config : CombinedConfig) where
  -- One turn of the loop that boots the gatherers.
  unfoldable pub start_gatherer : DataGatherer → Result StartError Gatherer
  unfolding configure
  start_gatherer dg =
      if is_set dg.data_path
      then err (StartError.data_path dg.name dg.kind dg.data_path)
      else (elim (new_data_gatherer dg) [
        | err e ↦ err (StartError.instantiating dg.kind dg.name e)
        | ok g ↦ ok (configure encryptor kind config g)
      ])

  -- The loop, over the map that it fills.
  unfoldable pub start_gatherers :
      List DataGatherer → List (String × Gatherer) → Result StartError (List (String × Gatherer))
  unfolding start_gatherer assign
  start_gatherers [] started = ok started
  start_gatherers (dg ∷ dgs) started =
      start_gatherer dg >>= λ g. start_gatherers dgs (assign dg.name g started)
