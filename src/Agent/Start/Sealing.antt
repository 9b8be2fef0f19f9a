-- ===== src/Agent/Start/Sealing.antt =====
-- The gatherers of Kubernetes resources, as pkg/datagatherer/k8sdynamic makes them, in the loop that boots
-- the gatherers.
use mathlib.Core.List.{Memᴰ}
use jetstack_secure.Prelude.{String, ◌≡◌, refl, subst, Option, none, some, List, []}
use jetstack_secure.Prelude.Results.{Result, ok, err}
use jetstack_secure.K8sDynamic.Redaction.{Encryptor}
use jetstack_secure.K8sDynamic.Fetch as K8sDynamicFetch
use jetstack_secure.K8sDynamic.Validation.{ConfigDynamic}
use jetstack_secure.K8sDynamic.Setup.{Selectors, SetupError, Created, new_data_gatherer}
use jetstack_secure.K8sDynamic.Setup.Total.{new_data_gatherer-bare}
use jetstack_secure.Agent.Config.{CombinedConfig, DataGatherer}
use jetstack_secure.Agent.Config.Gatherers.{ConfigKind, config_kind}
use jetstack_secure.Agent.Start.{
  ClientKind, EncryptorParts, Gatherer, load_encryptor, secrets_encryptor, start_gatherers,
}
use jetstack_secure.Agent.Start.Sealed.{IsGranted, IsBare, start_gatherers-IsGranted}

-- The clients of the API server and the registration of the handlers fail, or not; the settings of a
-- section and the message of an error.
pub record KubeCluster : Type 1 where
  pub selectors : Selectors
  pub client_set : String → Option String
  pub dynamic_client : String → Option String
  pub registration : Option String
  pub config_of : DataGatherer → ConfigDynamic
  pub message : SetupError → String
  -- `NewDataGatherer` of the other types.
  pub others : DataGatherer → Result String String

unfoldable pub as_gatherer :
    (SetupError → String) → Result SetupError Created → Result String Gatherer
as_gatherer message (ok created) = ok (Gatherer.dynamic created.gatherer)
as_gatherer message (err e) = err (message e)

unfoldable pub as_other : Result String String → Result String Gatherer
as_other (ok name) = ok (Gatherer.other name)
as_other (err e) = err e

-- `dgConfig.Config.NewDataGatherer`, by the type of the configuration.
unfoldable pub instantiate : KubeCluster → DataGatherer → Option ConfigKind → Result String Gatherer
unfolding as_gatherer as_other new_data_gatherer
instantiate cluster dg (some ConfigKind.dynamic_kind) = as_gatherer cluster.message (
    new_data_gatherer cluster.selectors cluster.client_set cluster.dynamic_client
      cluster.registration (cluster.config_of dg))
instantiate cluster dg _ = as_other (cluster.others dg)

unfoldable pub new_gatherer : KubeCluster → DataGatherer → Result String Gatherer
unfolding instantiate config_kind
new_gatherer cluster dg = instantiate cluster dg (config_kind dg.kind)

as_other-IsBare : (r : Result String String) (g : Gatherer) → as_other r ≡ ok g → IsBare g
unfolding as_other
as_other-IsBare (ok name) g h = let same : Gatherer.other name ≡ g = cc in subst IsBare same tt
as_other-IsBare (err e) g h = cc

as_gatherer-IsBare :
    (message : SetupError → String) (r : Result SetupError Created) (g : Gatherer)
    → ((created : Created) → r ≡ ok created → created.gatherer.redactor.encryptor ≡ none)
    → as_gatherer message r ≡ ok g
    → IsBare g
unfolding as_gatherer
as_gatherer-IsBare message (ok created) g bare h =
    let same : Gatherer.dynamic created.gatherer ≡ g = cc in subst IsBare same (bare created refl)
as_gatherer-IsBare message (err e) g bare h = cc

instantiate-IsBare :
    (cluster : KubeCluster) (dg : DataGatherer) (kind : Option ConfigKind) (g : Gatherer)
    → instantiate cluster dg kind ≡ ok g
    → IsBare g
unfolding instantiate
instantiate-IsBare cluster dg (some ConfigKind.dynamic_kind) g h =
    as_gatherer-IsBare cluster.message _ g
      (new_data_gatherer-bare cluster.selectors cluster.client_set cluster.dynamic_client
        cluster.registration (cluster.config_of dg))
      h
instantiate-IsBare cluster dg (some ConfigKind.discovery_kind) g h =
    as_other-IsBare (cluster.others dg) g h
instantiate-IsBare cluster dg (some ConfigKind.oidc_kind) g h =
    as_other-IsBare (cluster.others dg) g h
instantiate-IsBare cluster dg (some ConfigKind.local_kind) g h =
    as_other-IsBare (cluster.others dg) g h
instantiate-IsBare cluster dg (some ConfigKind.dummy_kind) g h =
    as_other-IsBare (cluster.others dg) g h
instantiate-IsBare cluster dg none g h = as_other-IsBare (cluster.others dg) g h

-- Where the gatherers of Kubernetes resources are made by pkg/datagatherer/k8sdynamic, a gatherer of
-- them that is started has an encryptor only if the user asked for it, the client is CyberArk's, the
-- encryptor was loaded for it, and the gatherer reads the secrets of the core API.
pub start_new_gatherers-IsGranted :
    (cluster : KubeCluster) (to_lower : String → String) (value : String) (parts : EncryptorParts)
    (kind : ClientKind) (config : CombinedConfig) (dgs : List DataGatherer)
    (started : List (String × Gatherer)) (name : String) (g : K8sDynamicFetch.DataGatherer)
    (encryptor : Encryptor)
    → start_gatherers
        (new_gatherer cluster)
        (secrets_encryptor to_lower value (load_encryptor parts kind))
        kind
        config
        dgs
        []
      ≡ ok started
    → Memᴰ (name, Gatherer.dynamic g) started
    → g.redactor.encryptor ≡ some encryptor
    → IsGranted to_lower value parts kind g encryptor
unfolding new_gatherer
start_new_gatherers-IsGranted cluster to_lower value parts kind config dgs started name g
      encryptor =
    start_gatherers-IsGranted (new_gatherer cluster) to_lower value parts kind config dgs started
      name g encryptor (λ dg g0. instantiate-IsBare cluster dg (config_kind dg.kind) g0)
