-- ===== src/Permissions.antt =====
-- pkg/permissions/generate.go: the RBAC manifests that let the agent read what its gatherers gather, and
-- their text.
pub mod Granted
pub mod Tests
use jetstack_secure.Prelude.{
  String, Bool, true, false, Option, List, [], ◌∷◌, ◌++◌, ◌==◌, map, if◌then◌else◌,
}
use jetstack_secure.Prelude.Results.{Result, ok, err}
use jetstack_secure.Prelude.Texts.{concat}
use jetstack_secure.K8sDynamic.Validation.{ConfigDynamic}
use jetstack_secure.Agent.Config.{DataGatherer}

pub record TypeMeta : Type 0 where
  pub kind : String
  pub api_version : String

pub record PolicyRule : Type 0 where
  pub verbs : List String
  pub api_groups : List String
  pub resources : List String

pub record ClusterRole : Type 0 where
  pub type_meta : TypeMeta
  pub name : String
  pub rules : List PolicyRule

pub record Subject : Type 0 where
  pub kind : String
  pub name : String
  pub namespace : String

pub record RoleRef : Type 0 where
  pub kind : String
  pub name : String
  pub api_group : String

pub record ClusterRoleBinding : Type 0 where
  pub type_meta : TypeMeta
  pub name : String
  pub subjects : List Subject
  pub role_ref : RoleRef

pub record RoleBinding : Type 0 where
  pub type_meta : TypeMeta
  pub name : String
  pub namespace : String
  pub subjects : List Subject
  pub role_ref : RoleRef

-- `AgentRBACManifests`.
pub record AgentRbacManifests : Type 0 where
  pub cluster_roles : List ClusterRole
  pub cluster_role_bindings : List ClusterRoleBinding
  pub role_bindings : List RoleBinding

abbrev pub agent_namespace : String
agent_namespace = "jetstack-secure"

abbrev pub agent_subject_name : String
agent_subject_name = "agent"

unfoldable pub metadata_name : ConfigDynamic → String
metadata_name config =
    concat agent_namespace
      (concat "-agent-" (concat config.group_version_resource.resource "-reader"))

unfoldable pub rbac_meta : String → TypeMeta
rbac_meta kind = record { kind = kind; api_version = "rbac.authorization.k8s.io/v1" }

unfoldable pub agent_subjects : List Subject
agent_subjects =
    record { kind = "ServiceAccount"; name = agent_subject_name; namespace = agent_namespace } ∷ []

unfoldable pub role_ref_of : ConfigDynamic → RoleRef
unfolding metadata_name
role_ref_of config = record {
  kind = "ClusterRole";
  name = metadata_name config;
  api_group = "rbac.authorization.k8s.io";
}

unfoldable pub cluster_role_of : ConfigDynamic → ClusterRole
unfolding metadata_name rbac_meta
cluster_role_of config = record {
  type_meta = rbac_meta "ClusterRole";
  name = metadata_name config;
  rules =
      record {
        verbs = "get" ∷ "list" ∷ "watch" ∷ [];
        api_groups = config.group_version_resource.group ∷ [];
        resources = config.group_version_resource.resource ∷ [];
      }
      ∷ [];
}

unfoldable pub role_binding_of : ConfigDynamic → String → RoleBinding
unfolding metadata_name rbac_meta agent_subjects role_ref_of
role_binding_of config ns = record {
  type_meta = rbac_meta "RoleBinding";
  name = metadata_name config;
  namespace = ns;
  subjects = agent_subjects;
  role_ref = role_ref_of config;
}

unfoldable pub cluster_role_binding_of : ConfigDynamic → ClusterRoleBinding
unfolding metadata_name rbac_meta agent_subjects role_ref_of
cluster_role_binding_of config = record {
  type_meta = rbac_meta "ClusterRoleBinding";
  name = metadata_name config;
  subjects = agent_subjects;
  role_ref = role_ref_of config;
}

-- The bindings in the namespaces that are included, or in the cluster where none is.
unfoldable pub bind_namespaces :
    ConfigDynamic → List String → AgentRbacManifests → AgentRbacManifests
unfolding role_binding_of cluster_role_binding_of
bind_namespaces config [] m = record m {
  cluster_role_bindings = m.cluster_role_bindings ++ cluster_role_binding_of config ∷ [];
}
bind_namespaces config (ns ∷ rest) m = record m {
  role_bindings = m.role_bindings ++ map (role_binding_of config) (ns ∷ rest);
}

-- One turn of the loop over the gatherers.
unfoldable pub add_gatherer : ConfigDynamic → AgentRbacManifests → AgentRbacManifests
unfolding cluster_role_of bind_namespaces
add_gatherer config m =
    bind_namespaces config config.include_namespaces
      (record m { cluster_roles = m.cluster_roles ++ cluster_role_of config ∷ [] })

-- The configuration of a gatherer of kind `k8s-dynamic` is a parameter.
module _ (config_of : DataGatherer → ConfigDynamic) where
  unfoldable pub manifests_loop : List DataGatherer → AgentRbacManifests → AgentRbacManifests
  unfolding add_gatherer
  manifests_loop [] m = m
  manifests_loop (dg ∷ dgs) m =
      manifests_loop dgs (if dg.kind == "k8s-dynamic" then add_gatherer (config_of dg) m else m)

  unfoldable pub generate_agent_rbac_manifests : List DataGatherer → AgentRbacManifests
  unfolding manifests_loop
  generate_agent_rbac_manifests dgs =
      manifests_loop dgs
        (record { cluster_roles = []; cluster_role_bindings = []; role_bindings = [] })

-- A document that does not marshal is left empty.
unfoldable pub document : Result String String → String
document (ok text) = text
document (err e) = ""

-- The loop of `createClusterRoleString` and of its two likes, over `yaml.Marshal`.
unfoldable pub create_string : {A : Type 0} → (A → Result String String) → List A → String
unfolding document
create_string marshal [] = ""
create_string marshal (x ∷ xs) =
    concat "\n" (concat (document (marshal x)) (concat "---" (create_string marshal xs)))

-- `yaml.Marshal`, and the functions of package strings that tidy the text.
pub record Yaml : Type 0 where
  pub marshal_cluster_role : ClusterRole → Result String String
  pub marshal_cluster_role_binding : ClusterRoleBinding → Result String String
  pub marshal_role_binding : RoleBinding → Result String String
  pub trim_prefix : String → String → String
  pub trim_space : String → String
  pub replace_all : String → String → String → String

unfoldable pub generate_full_manifest :
    Yaml → (DataGatherer → ConfigDynamic) → List DataGatherer → String
unfolding generate_agent_rbac_manifests create_string
generate_full_manifest yaml config_of dgs =
    let m = generate_agent_rbac_manifests config_of dgs in
    let out = concat (create_string yaml.marshal_cluster_role m.cluster_roles) (
      concat (create_string yaml.marshal_cluster_role_binding m.cluster_role_bindings)
        (create_string yaml.marshal_role_binding m.role_bindings)) in
    yaml.replace_all (yaml.trim_space (yaml.trim_prefix out "\n")) "\n  creationTimestamp: null" ""
