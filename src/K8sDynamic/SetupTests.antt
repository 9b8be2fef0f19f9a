-- ===== src/K8sDynamic/SetupTests.antt =====
-- The setup of small gatherers, over selectors that are texts.
use jetstack_secure.Prelude.{
  String, ◌≡◌, ◌↔◌, refl, false, none, some, List, [], ◌∷◌, ◌==◌, if◌then◌else◌,
}
use jetstack_secure.Prelude.Results.{ok, err}
use jetstack_secure.Prelude.Texts.{concat}
use jetstack_secure.K8sDynamic.Validation.{ConfigDynamic, ValidationError}
use jetstack_secure.K8sDynamic.Validation.Accepted.{IsValid}
use jetstack_secure.K8sDynamic.Setup.{
  Selectors, SetupError, Created, Informer, parsers_of, create, new_data_gatherer_with_client,
  new_data_gatherer,
}
use jetstack_secure.K8sDynamic.Setup.Total.{IsCreated, new_data_gatherer_with_client_iff}

abbrev joined : List String → String
joined [] = ""
joined (s ∷ ss) = concat s (concat "," (joined ss))

abbrev pub selectors : Selectors
selectors = record {
  FieldSelector = String;
  LabelSelector = String;
  parse_field_selector = λ s. if s == "=" then err "bad" else ok s;
  one_term_not_equal_selector = λ key value. concat key (concat "!=" value);
  and_selectors = joined;
  field_string = λ s. s;
  parse_label_selector = λ s. ok s;
  everything = "";
  add = λ s t. concat s t;
  label_string = λ s. s;
  compile = λ r. ok (λ key. key == r);
}

abbrev pub deployments : ConfigDynamic
deployments = record {
  kube_config_path = "";
  group_version_resource = record { group = "apps"; version = "v1"; resource = "deployments" };
  exclude_namespaces = "" ∷ "kube-system" ∷ [];
  include_namespaces = [];
  field_selectors = "type!=helm" ∷ [];
  label_selectors = "app" ∷ [];
  exclude_annotation_keys_regex = [];
  exclude_label_keys_regex = [];
}

abbrev created : Created
created = record {
  gatherer = record {
    group_version_resource = deployments.group_version_resource;
    namespaces = [];
    redactor = record {
      exclude_annot_keys = [];
      exclude_label_keys = [];
      encryptor = none;
      include_last_modified_time = false;
    };
  };
  field_selector = "metadata.namespace!=kube-system,,type!=helm,";
  label_selector = "app";
  informer = Informer.shared deployments.group_version_resource;
}

new_data_gatherer_tests :
    (new_data_gatherer selectors (λ path. none) (λ path. some "no cluster") none deployments
      ≡ ok created)
    × (new_data_gatherer_with_client selectors none
          (record deployments { field_selectors = "=" ∷ [] })
        ≡ err (SetupError.invalid (ValidationError.field_selector 0 "bad" ∷ [])))
    × (create selectors none (record deployments { field_selectors = "=" ∷ [] })
        ≡ err (SetupError.panics "bad"))
unfolding new_data_gatherer
new_data_gatherer_tests = (refl, refl, refl)

new_data_gatherer_with_client_iff_example : IsValid (parsers_of selectors) deployments ↔ (
    (made : Created) × (new_data_gatherer_with_client selectors none deployments ≡ ok made)
    × IsCreated selectors deployments made)
new_data_gatherer_with_client_iff_example = new_data_gatherer_with_client_iff selectors deployments
