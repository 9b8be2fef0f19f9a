-- ===== src/CyberArk/Snapshot.antt =====
-- pkg/client/client_cyberark.go: `convertDataReadings` and the extractor functions, which put the data
-- of each gatherer into its field of the snapshot. Go's sets of names are lists without repetitions,
-- which the error does not sort.
pub mod Extracted
pub mod Complete
use jetstack_secure.Prelude.{
  ℕ, ◌+◌, String, Bool, true, false, not, Option, none, some, List, [], ◌∷◌, ◌++◌, map, ◌==◌,
  if◌then◌else◌,
}
use jetstack_secure.Prelude.Results.{Result, ok, err, ◌>>=◌}
use jetstack_secure.Prelude.Lists.{filter, is_empty, contains}
use jetstack_secure.K8sDynamic.Values.{Fields, end}
use jetstack_secure.K8sDynamic.Resources.{Resource, unstructured, typed, foreign}
use jetstack_secure.K8sDynamic.Cache.{is_zero}

-- An item of `api.DynamicData`: the resource, and the zero time or when it was deleted.
pub record ReadItem : Type 0 where
  pub resource : Resource
  pub deleted_at : ℕ

-- `DataReading.Data`: the types of api/datareading.go, or another, by name.
pub data ReadingData : Type 0 where
  -- `OIDCDiscoveryData`: the configuration, its error, the JWKS and its error.
  oidc : Fields → String → Fields → String → ReadingData
  -- `DiscoveryData`: the cluster's id, and the git version of the server if there is one.
  discovery : String → Option String → ReadingData
  dynamic : List ReadItem → ReadingData
  other : String → ReadingData

pub record DataReading : Type 0 where
  pub data_gatherer : String
  pub contents : ReadingData

pub record Snapshot : Type 0 where
  pub agent_version : String
  pub cluster_id : String
  pub cluster_name : String
  pub cluster_description : String
  pub k8s_version : String
  pub oidc_config : Fields
  pub oidc_config_error : String
  pub jwks : Fields
  pub jwks_error : String
  pub secrets : List Resource
  pub service_accounts : List Resource
  pub config_maps : List Resource
  pub external_secrets : List Resource
  pub secret_stores : List Resource
  pub cluster_external_secrets : List Resource
  pub cluster_secret_stores : List Resource
  pub secret_provider_classes : List Resource
  pub secret_provider_class_pod_statuses : List Resource
  pub roles : List Resource
  pub cluster_roles : List Resource
  pub role_bindings : List Resource
  pub cluster_role_bindings : List Resource
  pub jobs : List Resource
  pub cron_jobs : List Resource
  pub deployments : List Resource
  pub statefulsets : List Resource
  pub daemonsets : List Resource
  pub pods : List Resource

pub data SnapshotError : Type 0 where
  nil_reading : SnapshotError
  -- The gatherer's name, and the type that was expected.
  wrong_data_type : String → String → SnapshotError
  item_not_object : ℕ → SnapshotError
  while_extracting : String → SnapshotError → SnapshotError
  -- The missing and the unhandled gatherers.
  unexpected_gatherers : List String → List String → SnapshotError

abbrev pub Extractor : Type 0
Extractor = Option DataReading → Snapshot → Result SnapshotError Snapshot

unfoldable pub extract_oidc_from_reading : Extractor
extract_oidc_from_reading none target = err SnapshotError.nil_reading
extract_oidc_from_reading (some r) target = elim r.contents [
  | ReadingData.oidc config config_error jwks jwks_error ↦ ok (record target {
    oidc_config = config;
    oidc_config_error = config_error;
    jwks = jwks;
    jwks_error = jwks_error;
  })
  | _ ↦ err (SnapshotError.wrong_data_type r.data_gatherer "OIDCDiscoveryData")
]

unfoldable pub extract_cluster_id_and_server_version_from_reading : Extractor
extract_cluster_id_and_server_version_from_reading none target = err SnapshotError.nil_reading
extract_cluster_id_and_server_version_from_reading (some r) target = elim r.contents [
  | ReadingData.discovery id none ↦ ok (record target { cluster_id = id })
  | ReadingData.discovery id (some version) ↦
      ok (record target { cluster_id = id; k8s_version = version })
  | _ ↦ err (SnapshotError.wrong_data_type r.data_gatherer "DiscoveryData")
]

-- The type assertion to `runtime.Object`.
unfoldable pub is_object : Resource → Bool
is_object (unstructured o) = true
is_object (typed t) = true
is_object (foreign s) = false

-- The loop over the items, from index `i`.
unfoldable pub extract_resources : ℕ → List ReadItem → Result SnapshotError (List Resource)
unfolding is_zero is_object
extract_resources i [] = ok []
extract_resources i (x ∷ xs) =
    let rest = extract_resources (i + 1) xs in
    if not (is_zero x.deleted_at)
    then rest
    else if is_object x.resource
    then (rest >>= λ found. ok (x.resource ∷ found))
    else err (SnapshotError.item_not_object i)

unfoldable pub extract_resource_list_from_reading :
    Option DataReading → Result SnapshotError (List Resource)
unfolding extract_resources
extract_resource_list_from_reading none = err SnapshotError.nil_reading
extract_resource_list_from_reading (some r) = elim r.contents [
  | ReadingData.dynamic items ↦ extract_resources 0 items
  | _ ↦ err (SnapshotError.wrong_data_type r.data_gatherer "DynamicData")
]

-- An extractor of resources, with the field of the snapshot that it writes.
unfoldable pub extract_into : (Snapshot → List Resource → Snapshot) → Extractor
unfolding extract_resource_list_from_reading
extract_into put r target = extract_resource_list_from_reading r >>= λ found. ok (put target found)

-- A map from names to extractor functions.
abbrev pub Extractors : Type 0
Extractors = List (String × Extractor)

unfoldable pub default_extractor_functions : Extractors
unfolding extract_oidc_from_reading extract_cluster_id_and_server_version_from_reading extract_into
default_extractor_functions =
    ("ark/oidc", extract_oidc_from_reading)
    ∷ ("ark/discovery", extract_cluster_id_and_server_version_from_reading)
    ∷ ("ark/secrets", extract_into (λ s found. record s { secrets = found }))
    ∷ ("ark/serviceaccounts", extract_into (λ s found. record s { service_accounts = found }))
    ∷ ("ark/roles", extract_into (λ s found. record s { roles = found }))
    ∷ ("ark/clusterroles", extract_into (λ s found. record s { cluster_roles = found }))
    ∷ ("ark/rolebindings", extract_into (λ s found. record s { role_bindings = found }))
    ∷ (
      "ark/clusterrolebindings",
      extract_into (λ s found. record s { cluster_role_bindings = found }),
    )
    ∷ ("ark/jobs", extract_into (λ s found. record s { jobs = found }))
    ∷ ("ark/cronjobs", extract_into (λ s found. record s { cron_jobs = found }))
    ∷ ("ark/deployments", extract_into (λ s found. record s { deployments = found }))
    ∷ ("ark/statefulsets", extract_into (λ s found. record s { statefulsets = found }))
    ∷ ("ark/daemonsets", extract_into (λ s found. record s { daemonsets = found }))
    ∷ ("ark/pods", extract_into (λ s found. record s { pods = found }))
    ∷ ("ark/configmaps", extract_into (λ s found. record s { config_maps = found }))
    ∷ ("ark/esoexternalsecrets", extract_into (λ s found. record s { external_secrets = found }))
    ∷ ("ark/esosecretstores", extract_into (λ s found. record s { secret_stores = found }))
    ∷ (
      "ark/esoclusterexternalsecrets",
      extract_into (λ s found. record s { cluster_external_secrets = found }),
    )
    ∷ (
      "ark/esoclustersecretstores",
      extract_into (λ s found. record s { cluster_secret_stores = found }),
    )
    ∷ (
      "ark/secretproviderclasses",
      extract_into (λ s found. record s { secret_provider_classes = found }),
    )
    ∷ (
      "ark/secretproviderclasspodstatuses",
      extract_into (λ s found. record s { secret_provider_class_pod_statuses = found }),
    )
    ∷ []

unfoldable pub find_extractor : String → Extractors → Option Extractor
find_extractor k [] = none
find_extractor k ((j, f) ∷ fs) = if j == k then some f else find_extractor k fs

unfoldable pub names : Extractors → List String
names [] = []
names ((k, f) ∷ fs) = k ∷ names fs

-- The sets of missing and of unhandled gatherers, and the snapshot.
pub record Progress : Type 0 where
  pub missing : List String
  pub unhandled : List String
  pub target : Snapshot

unfoldable pub in_extraction :
    String → Result SnapshotError Snapshot → Result SnapshotError Snapshot
in_extraction name (ok s) = ok s
in_extraction name (err e) = err (SnapshotError.while_extracting name e)

unfoldable pub convert_reading : Extractors → DataReading → Progress → Result SnapshotError Progress
unfolding find_extractor in_extraction
convert_reading fs r p = elim (find_extractor r.data_gatherer fs) [
  | none ↦ ok (record p {
    unhandled =
        if contains p.unhandled r.data_gatherer
        then p.unhandled
        else p.unhandled ++ r.data_gatherer ∷ [];
  })
  | some f ↦ in_extraction r.data_gatherer (f (some r) p.target) >>= λ s.
      ok (record p {
        missing = filter (λ name. not (name == r.data_gatherer)) p.missing;
        target = s;
      })
]

unfoldable pub convert_loop :
    Extractors → List DataReading → Progress → Result SnapshotError Progress
unfolding convert_reading
convert_loop fs [] p = ok p
convert_loop fs (r ∷ rs) p = convert_reading fs r p >>= λ q. convert_loop fs rs q

unfoldable pub conclude : Progress → Result SnapshotError Snapshot
conclude p =
    if is_empty p.missing
    then (if is_empty p.unhandled
        then ok p.target
        else err (SnapshotError.unexpected_gatherers p.missing p.unhandled))
    else err (SnapshotError.unexpected_gatherers p.missing p.unhandled)

unfoldable pub convert_data_readings :
    Extractors → List DataReading → Snapshot → Result SnapshotError Snapshot
unfolding names convert_loop conclude
convert_data_readings fs rs target =
    convert_loop fs rs (record { missing = names fs; unhandled = []; target = target }) >>= conclude
