-- ===== src/K8sDynamic/Resources.antt =====
-- The objects that the gatherer handles, and the packages of Kubernetes that it asks about them.
-- A typed object stands for the Go types of client-go; the gatherer reads and writes only the parts
-- that its record names. Instants are counted from Go's zero time.
use jetstack_secure.Prelude.{ℕ, String, Bool, Option, List}
use jetstack_secure.Prelude.Results.{Result}
use jetstack_secure.K8sDynamic.Values.{Fields, Items, FieldPath}
use jetstack_secure.K8sDynamic.NestedFields.{NestedFields}

-- `schema.GroupVersionKind`.
pub record GroupVersionKind : Type 0 where
  pub group : String
  pub version : String
  pub kind : String

-- `schema.GroupVersionResource`.
pub record GroupVersionResource : Type 0 where
  pub group : String
  pub version : String
  pub resource : String

-- `map[string]string`.
abbrev pub StringMap : Type 0
StringMap = List (String × String)

pub record TypedObject : Type 0 where
  pub uid : String
  pub namespace : String
  pub managed_fields : List String
  pub annotations : StringMap
  pub labels : StringMap
  pub type_meta : GroupVersionKind
  pub content : String

pub data Resource : Type 0 where
  unstructured : Fields → Resource
  typed : TypedObject → Resource
  -- Neither a resource with a UID nor one with metadata, such as an informer's tombstone.
  foreign : String → Resource

-- A compiled regular expression, by what `MatchString` answers.
abbrev pub Regexp : Type 0
Regexp = String → Bool

-- `apimachinery` and the standard library, as the gatherer uses them.
pub record Kube : Type 0 where
  pub fields : NestedFields
  -- `unstructured.NestedSlice`.
  pub nested_slice : Fields → FieldPath → Result String (Option Items)
  -- `scheme.Scheme.ObjectKinds`.
  pub object_kinds : Resource → Result String (List GroupVersionKind)
  -- `GroupVersionResource.String`.
  pub gvr_string : GroupVersionResource → String
  -- `GetUID`, `GetNamespace`, and the keys of `GetAnnotations` and `GetLabels`.
  pub get_uid : Fields → String
  pub get_namespace : Fields → String
  pub annotation_keys : Fields → List String
  pub label_keys : Fields → List String
  -- `time.Parse(time.RFC3339, …)`.
  pub parse_time : String → Option ℕ
  -- `json.Marshal` of a map, and base64 as `json.Marshal` writes bytes.
  pub marshal : Fields → Result String String
  pub base64 : String → String
