-- ===== src/Permissions/Tests.antt =====
-- The manifests of small configurations.
use mathlib.Core.List.{Memᴰ}
use jetstack_secure.Prelude.{String, ◌≡◌, ◌↔◌, refl, List, [], ◌∷◌}
use jetstack_secure.K8sDynamic.Validation.{ConfigDynamic}
use jetstack_secure.Agent.Config.{DataGatherer}
use jetstack_secure.Permissions.{
  cluster_role_of, cluster_role_binding_of, role_binding_of, generate_agent_rbac_manifests,
}
use jetstack_secure.Permissions.Granted.{IsDynamic, generate_agent_rbac_manifests-mem_iff}

abbrev secrets : ConfigDynamic
secrets = record {
  kube_config_path = "";
  group_version_resource = record { group = ""; version = "v1"; resource = "secrets" };
  exclude_namespaces = [];
  include_namespaces = "prod" ∷ [];
  field_selectors = [];
  label_selectors = [];
  exclude_annotation_keys_regex = [];
  exclude_label_keys_regex = [];
}

abbrev config_of : DataGatherer → ConfigDynamic
config_of dg = secrets

abbrev sections : List DataGatherer
sections =
    record { kind = "k8s-dynamic"; name = "k8s/secrets"; data_path = ""; resource = "" }
    ∷ record { kind = "k8s-discovery"; name = "k8s/discovery"; data_path = ""; resource = "" }
    ∷ []

generate_agent_rbac_manifests_test : generate_agent_rbac_manifests config_of sections ≡ record {
  cluster_roles = cluster_role_of secrets ∷ [];
  cluster_role_bindings = [];
  role_bindings = role_binding_of secrets "prod" ∷ [];
}
unfolding generate_agent_rbac_manifests
generate_agent_rbac_manifests_test = refl

generate_agent_rbac_manifests-mem_iff_example :
    let m = generate_agent_rbac_manifests config_of sections in
    (Memᴰ (cluster_role_of secrets) m.cluster_roles ↔ (
      (c : ConfigDynamic) × IsDynamic config_of sections c
      × (cluster_role_of secrets ≡ cluster_role_of c)))
    × (Memᴰ (cluster_role_binding_of secrets) m.cluster_role_bindings ↔ (
        (c : ConfigDynamic) × IsDynamic config_of sections c
        × (c.include_namespaces ≡ [])
        × (cluster_role_binding_of secrets ≡ cluster_role_binding_of c)))
    × (Memᴰ (role_binding_of secrets "prod") m.role_bindings ↔ (
        (c : ConfigDynamic) × IsDynamic config_of sections c
        × (ns : String) × Memᴰ ns c.include_namespaces
        × (role_binding_of secrets "prod" ≡ role_binding_of c ns)))
generate_agent_rbac_manifests-mem_iff_example =
    generate_agent_rbac_manifests-mem_iff config_of sections (cluster_role_of secrets)
      (cluster_role_binding_of secrets) (role_binding_of secrets "prod")
