-- ===== src/K8sDynamic/Validation.antt =====
-- pkg/datagatherer/k8sdynamic/dynamic.go: the configuration of a gatherer and its `validate`, over the
-- parsers of selectors and of patterns. The joined message is the list of its parts.
pub mod Accepted
use jetstack_secure.Prelude.{
  ℕ, ◌+◌, String, Bool, true, false, not, ◌&&◌, Option, none, some, List, [], ◌∷◌, ◌++◌, ◌==◌,
  if◌then◌else◌,
}
use jetstack_secure.Prelude.Lists.{is_empty}
use jetstack_secure.K8sDynamic.Resources.{GroupVersionResource}

pub record ConfigDynamic : Type 0 where
  pub kube_config_path : String
  pub group_version_resource : GroupVersionResource
  pub exclude_namespaces : List String
  pub include_namespaces : List String
  pub field_selectors : List String
  pub label_selectors : List String
  pub exclude_annotation_keys_regex : List String
  pub exclude_label_keys_regex : List String

-- The errors of `fields.ParseSelector`, `labels.Parse` and `regexp.Compile`, or nil.
pub record Parsers : Type 0 where
  pub parse_field_selector : String → Option String
  pub parse_label_selector : String → Option String
  pub compile : String → Option String

pub data ValidationError : Type 0 where
  excluded_and_included no_resource : ValidationError
  -- The index; an empty selector, or one that is invalid, with the parser's error.
  empty_field_selector empty_label_selector : ℕ → ValidationError
  field_selector label_selector annotation_regex label_regex : ℕ → String → ValidationError

unfoldable pub when : Bool → ValidationError → List ValidationError
when true e = e ∷ []
when false e = []

unfoldable pub parse_errors :
    (ℕ → String → ValidationError) → ℕ → Option String → List ValidationError
parse_errors invalid i none = []
parse_errors invalid i (some e) = invalid i e ∷ []

-- The loop over a list of selectors.
unfoldable pub selector_errors :
    (String → Option String)
    → (ℕ → ValidationError)
    → (ℕ → String → ValidationError)
    → ℕ
    → List String
    → List ValidationError
unfolding when parse_errors
selector_errors parse empty invalid i [] = []
selector_errors parse empty invalid i (s ∷ ss) =
    when (s == "") (empty i)
    ++ (parse_errors invalid i (parse s) ++ selector_errors parse empty invalid (i + 1) ss)

-- The loop over a list of patterns.
unfoldable pub regex_errors :
    (String → Option String)
    → (ℕ → String → ValidationError)
    → ℕ
    → List String
    → List ValidationError
unfolding parse_errors
regex_errors compile invalid i [] = []
regex_errors compile invalid i (r ∷ rs) =
    parse_errors invalid i (compile r) ++ regex_errors compile invalid (i + 1) rs

-- No error is the empty list.
unfoldable pub validate : Parsers → ConfigDynamic → List ValidationError
unfolding selector_errors regex_errors when
validate parsers c =
    when (not (is_empty c.exclude_namespaces) && not (is_empty c.include_namespaces))
      ValidationError.excluded_and_included
    ++ (when (c.group_version_resource.resource == "") ValidationError.no_resource
        ++ (selector_errors parsers.parse_field_selector ValidationError.empty_field_selector
              ValidationError.field_selector 0 c.field_selectors
            ++ (selector_errors parsers.parse_label_selector ValidationError.empty_label_selector
                  ValidationError.label_selector 0 c.label_selectors
                ++ (regex_errors parsers.compile ValidationError.annotation_regex 0
                      c.exclude_annotation_keys_regex
                    ++ regex_errors parsers.compile ValidationError.label_regex 0
                        c.exclude_label_keys_regex))))
