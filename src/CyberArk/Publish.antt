-- ===== src/CyberArk/Publish.antt =====
-- pkg/client/client_cyberark.go: `PostDataReadingsWithOptions`, over the configuration, the service
-- discovery and the upload, which other packages do.
pub mod Uploaded
use jetstack_secure.Prelude.{Bool, String, Option, none, some, List, []}
use jetstack_secure.Prelude.Results.{Result, ok, err, ◌>>=◌}
use jetstack_secure.K8sDynamic.Values.{end}
use jetstack_secure.CyberArk.Snapshot.{
  Snapshot, DataReading, SnapshotError, convert_data_readings, default_extractor_functions,
}
use jetstack_secure.CyberArk.Minimize.{Decoders, minimize_snapshot}

pub record Options : Type 0 where
  pub org_id : String
  pub cluster_id : String
  pub cluster_name : String
  pub cluster_description : String
  pub claimable_certs : Bool

pub data PublishError : Type 0 where
  load_config : String → PublishError
  discovery : String → PublishError
  converting : SnapshotError → PublishError
  initializing : String → PublishError
  uploading : String → PublishError

-- What the client is made from.
pub record Publisher : Type 1 where
  pub ClientConfig : Type 0
  pub Services : Type 0
  pub UploadClient : Type 0
  pub version : String
  pub load_config : Result String ClientConfig
  pub discover_services : Result String Services
  pub new_upload_client : Services → ClientConfig → Result String UploadClient
  -- The error of `PutSnapshot`, or nil.
  pub put_snapshot : UploadClient → Snapshot → Option String

unfoldable pub wrap {ℓ} :
    {A : Type ℓ} {E : Type 0} → (E → PublishError) → Result E A → Result PublishError A
wrap f (ok a) = ok a
wrap f (err e) = err (f e)

unfoldable pub base_snapshot_from_options : String → Options → Snapshot
base_snapshot_from_options version opts = record {
  agent_version = version;
  cluster_id = "";
  cluster_name = opts.cluster_name;
  cluster_description = opts.cluster_description;
  k8s_version = "";
  oidc_config = end;
  oidc_config_error = "";
  jwks = end;
  jwks_error = "";
  secrets = [];
  service_accounts = [];
  config_maps = [];
  external_secrets = [];
  secret_stores = [];
  cluster_external_secrets = [];
  cluster_secret_stores = [];
  secret_provider_classes = [];
  secret_provider_class_pod_statuses = [];
  roles = [];
  cluster_roles = [];
  role_bindings = [];
  cluster_role_bindings = [];
  jobs = [];
  cron_jobs = [];
  deployments = [];
  statefulsets = [];
  daemonsets = [];
  pods = [];
}

unfoldable pub uploaded : Snapshot → Option String → Result PublishError Snapshot
uploaded s none = ok s
uploaded s (some e) = err (PublishError.uploading e)

-- The snapshot that was uploaded, or the error.
unfoldable pub post_data_readings_with_options :
    Decoders → Publisher → List DataReading → Options → Result PublishError Snapshot
unfolding wrap uploaded base_snapshot_from_options convert_data_readings minimize_snapshot
post_data_readings_with_options decoders publisher readings opts = do
  cfg ← wrap PublishError.load_config publisher.load_config
  services ← wrap PublishError.discovery publisher.discover_services
  converted ← wrap PublishError.converting (
      convert_data_readings default_extractor_functions readings
        (base_snapshot_from_options publisher.version opts))
  let snapshot = minimize_snapshot decoders converted
  upload ← wrap PublishError.initializing (publisher.new_upload_client services cfg)
  uploaded snapshot (publisher.put_snapshot upload snapshot)
