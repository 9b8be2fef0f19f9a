-- ===== src/K8sDynamic/Setup.antt =====
-- pkg/datagatherer/k8sdynamic/dynamic.go: `NewDataGatherer`, which makes the selectors, the informer and
-- the patterns of a gatherer from its configuration, over the selectors of apimachinery.
pub mod Total
use jetstack_secure.Prelude.{
  String, Bool, true, false, not, ◌&&◌, ◌||◌, Option, none, some, List, [], ◌∷◌, ◌==◌,
  if◌then◌else◌,
}
use jetstack_secure.Prelude.Results.{Result, ok, err, ◌>>=◌, map_err}
use jetstack_secure.Prelude.Lists.{is_empty, any}
use jetstack_secure.K8sDynamic.Resources.{GroupVersionResource, Regexp}
use jetstack_secure.K8sDynamic.Fetch.{DataGatherer}
use jetstack_secure.K8sDynamic.Validation.{ConfigDynamic, Parsers, ValidationError, validate}

-- Packages fields, labels and regexp. `add` adds the requirements of the second selector.
pub record Selectors : Type 1 where
  pub FieldSelector : Type 0
  pub LabelSelector : Type 0
  pub parse_field_selector : String → Result String FieldSelector
  pub one_term_not_equal_selector : String → String → FieldSelector
  pub and_selectors : List FieldSelector → FieldSelector
  pub field_string : FieldSelector → String
  pub parse_label_selector : String → Result String LabelSelector
  pub everything : LabelSelector
  pub add : LabelSelector → LabelSelector → LabelSelector
  pub label_string : LabelSelector → String
  pub compile : String → Result String Regexp

unfoldable pub error_of : {A : Type 0} → Result String A → Option String
error_of (ok a) = none
error_of (err e) = some e

unfoldable pub parsers_of : Selectors → Parsers
unfolding error_of
parsers_of selectors = record {
  parse_field_selector = λ s. error_of (selectors.parse_field_selector s);
  parse_label_selector = λ s. error_of (selectors.parse_label_selector s);
  compile = λ r. error_of (selectors.compile r);
}

pub data SetupError : Type 0 where
  no_client : String → SetupError
  invalid : List ValidationError → SetupError
  -- The program panics.
  panics : String → SetupError
  registration : String → SetupError
  annotation_pattern label_pattern : String → SetupError

unfoldable pub same_resource : GroupVersionResource → GroupVersionResource → Bool
same_resource a b = a.group == b.group && (a.version == b.version && a.resource == b.resource)

-- The keys of the map of informers.
unfoldable pub kubernetes_native_resources : List GroupVersionResource
kubernetes_native_resources =
    record { group = ""; version = "v1"; resource = "pods" }
    ∷ record { group = ""; version = "v1"; resource = "nodes" }
    ∷ record { group = ""; version = "v1"; resource = "services" }
    ∷ record { group = ""; version = "v1"; resource = "configmaps" }
    ∷ record { group = "apps"; version = "v1"; resource = "deployments" }
    ∷ record { group = "apps"; version = "v1"; resource = "daemonsets" }
    ∷ record { group = "apps"; version = "v1"; resource = "statefulsets" }
    ∷ record { group = "apps"; version = "v1"; resource = "replicasets" }
    ∷ record {
      group = "admissionregistration.k8s.io";
      version = "v1";
      resource = "validatingwebhookconfigurations";
    }
    ∷ record {
      group = "admissionregistration.k8s.io";
      version = "v1";
      resource = "mutatingwebhookconfigurations";
    }
    ∷ record { group = "batch"; version = "v1"; resource = "jobs" }
    ∷ []

unfoldable pub is_native_resource : GroupVersionResource → Bool
unfolding kubernetes_native_resources same_resource
is_native_resource gvr = any (same_resource gvr) kubernetes_native_resources

-- The informer: one of the shared informers, or a dynamic one.
pub data Informer : Type 0 where
  shared dynamic_informer : GroupVersionResource → Informer

unfoldable pub informer_of : GroupVersionResource → Informer
unfolding is_native_resource
informer_of gvr =
    if is_native_resource gvr then Informer.shared gvr else Informer.dynamic_informer gvr

-- A new gatherer, with the selectors of its informer.
pub record Created : Type 0 where
  pub gatherer : DataGatherer
  pub field_selector : String
  pub label_selector : String
  pub informer : Informer

module _ (selectors : Selectors) where
  -- The loop over the namespaces, without those that are empty.
  unfoldable pub excluded_terms : List String → List selectors.FieldSelector
  excluded_terms [] = []
  excluded_terms (ns ∷ rest) =
      let later = excluded_terms rest in
      if ns == ""
      then later
      else selectors.one_term_not_equal_selector "metadata.namespace" ns ∷ later

  unfoldable pub generate_excluded_namespaces_field_selector : List String → selectors.FieldSelector
  unfolding excluded_terms
  generate_excluded_namespaces_field_selector namespaces =
      selectors.and_selectors (excluded_terms namespaces)

  -- The loops over the selectors: one that does not parse panics.
  unfoldable pub add_field_selectors :
      List String → selectors.FieldSelector → Result SetupError selectors.FieldSelector
  add_field_selectors [] selector = ok selector
  add_field_selectors (s ∷ ss) selector =
      map_err SetupError.panics (selectors.parse_field_selector s) >>= λ parsed.
      add_field_selectors ss (selectors.and_selectors (selector ∷ parsed ∷ []))

  unfoldable pub add_label_selectors :
      List String → selectors.LabelSelector → Result SetupError selectors.LabelSelector
  add_label_selectors [] selector = ok selector
  add_label_selectors (s ∷ ss) selector =
      map_err SetupError.panics (selectors.parse_label_selector s) >>= λ parsed.
      add_label_selectors ss (selectors.add selector parsed)

  -- The loops over the patterns.
  unfoldable pub compile_patterns :
      (String → SetupError) → List String → Result SetupError (List Regexp)
  compile_patterns bad [] = ok []
  compile_patterns bad (r ∷ rs) = map_err (λ e. bad r) (selectors.compile r) >>= λ compiled.
      compile_patterns bad rs >>= λ rest. ok (compiled ∷ rest)

  unfoldable pub created_of :
      ConfigDynamic
      → selectors.FieldSelector
      → selectors.LabelSelector
      → List Regexp
      → List Regexp
      → Created
  unfolding informer_of
  created_of c field label annotations labels = record {
    gatherer = record {
      group_version_resource = c.group_version_resource;
      namespaces = c.include_namespaces;
      redactor = record {
        exclude_annot_keys = annotations;
        exclude_label_keys = labels;
        encryptor = none;
        include_last_modified_time = false;
      };
    };
    field_selector = selectors.field_string field;
    label_selector = selectors.label_string label;
    informer = informer_of c.group_version_resource;
  }

  unfoldable pub registered : Option String → Result SetupError (Unit {0})
  registered none = ok tt
  registered (some e) = err (SetupError.registration e)

  -- What follows the validation; the error of the registration of the handlers, or nil, is a parameter.
  unfoldable pub create : Option String → ConfigDynamic → Result SetupError Created
  unfolding generate_excluded_namespaces_field_selector add_field_selectors add_label_selectors
      compile_patterns registered created_of
  create failure c = do
    field ←
        add_field_selectors c.field_selectors
          (generate_excluded_namespaces_field_selector c.exclude_namespaces)
    label ← add_label_selectors c.label_selectors selectors.everything
    done ← registered failure
    annotations ← compile_patterns SetupError.annotation_pattern c.exclude_annotation_keys_regex
    labels ← compile_patterns SetupError.label_pattern c.exclude_label_keys_regex
    ok (created_of c field label annotations labels)

  unfoldable pub create_validated :
      Option String → ConfigDynamic → List ValidationError → Result SetupError Created
  unfolding create
  create_validated failure c [] = create failure c
  create_validated failure c (e ∷ es) = err (SetupError.invalid (e ∷ es))

  unfoldable pub new_data_gatherer_with_client :
      Option String → ConfigDynamic → Result SetupError Created
  unfolding create_validated validate parsers_of
  new_data_gatherer_with_client failure c =
      create_validated failure c (validate (parsers_of selectors) c)

  -- The client cannot be made, or it is.
  unfoldable pub with_client :
      Option String → Option String → ConfigDynamic → Result SetupError Created
  unfolding new_data_gatherer_with_client
  with_client (some e) failure c = err (SetupError.no_client e)
  with_client none failure c = new_data_gatherer_with_client failure c

  -- The errors of the two clients, or nil.
  unfoldable pub new_data_gatherer :
      (String → Option String)
      → (String → Option String)
      → Option String
      → ConfigDynamic
      → Result SetupError Created
  unfolding is_native_resource with_client
  new_data_gatherer client_set dynamic_client failure c =
      with_client
        (if is_native_resource c.group_version_resource
          then client_set c.kube_config_path
          else dynamic_client c.kube_config_path)
        failure c
