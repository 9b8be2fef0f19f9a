-- ===== src/Gatherers/Discovery.antt =====
-- pkg/datagatherer/k8sdiscovery/discovery.go and pkg/datagatherer/local/local.go: the version of the API
-- server with the id of the cluster, and the contents of a file.
use jetstack_secure.Prelude.{String, ◌==◌, if◌then◌else◌}
use jetstack_secure.Prelude.Results.{Result, ok, err, ◌>>=◌, map_err}
use jetstack_secure.Prelude.Texts.{concat}
use jetstack_secure.Prelude.Int.{ℤ, pos, negsuc}

-- The discovery client of a kubeconfig, whose version is asked for later, and its clientset, which gives
-- the UID of a namespace.
pub record Kube (V : Type 0) : Type 1 where
  pub DiscoveryClient : Type 0
  pub ClientSet : Type 0
  pub new_discovery_client : String → Result String DiscoveryClient
  pub new_client_set : String → Result String ClientSet
  pub namespace_uid : ClientSet → String → Result String String
  pub server_version : DiscoveryClient → Result String V

-- `api.DiscoveryData`.
pub record DiscoveryData (V : Type 0) : Type 0 where
  pub cluster_id : String
  pub server_version : V

module _ {V : Type 0} (kube : Kube V) where
  pub record DataGathererDiscovery : Type 0 where
    pub cl : kube.DiscoveryClient
    pub cluster_id : String

  unfoldable pub new_discovery_gatherer : String → Result String DataGathererDiscovery
  new_discovery_gatherer kube_config_path = do
    cl ← kube.new_discovery_client kube_config_path
    cs ← map_err (concat "while creating new clientset: ") (kube.new_client_set kube_config_path)
    uid ←
        map_err (concat "while getting the kube-system namespace: ")
          (kube.namespace_uid cs "kube-system")
    ok (record { cl = cl; cluster_id = uid })

  unfoldable pub fetch_discovery : DataGathererDiscovery → Result String (DiscoveryData V × ℤ)
  fetch_discovery g = do
    data' ← map_err (concat "failed to get server version: ") (kube.server_version g.cl)
    ok (record { cluster_id = g.cluster_id; server_version = data' }, pos 1)

-- A gatherer of a file is its path.
unfoldable pub new_local_gatherer : String → Result String String
new_local_gatherer data_path =
    if data_path == "" then err "invalid configuration: DataPath cannot be empty" else ok data_path

unfoldable pub fetch_local : (String → Result String String) → String → Result String (String × ℤ)
fetch_local read_file data_path = do data_bytes ← read_file data_path; ok (data_bytes, negsuc 0)
