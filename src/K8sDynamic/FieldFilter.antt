-- ===== src/K8sDynamic/FieldFilter.antt =====
-- pkg/datagatherer/k8sdynamic/fieldfilter.go: the allow-lists and the deny-list of fields, and the
-- operations that apply them to an unstructured object.
pub mod Selecting
use jetstack_secure.Prelude.{String, Option, none, some, List, [], ◌∷◌}
use jetstack_secure.Prelude.Results.{Result, ok, err, ◌>>=◌}
use jetstack_secure.K8sDynamic.Values.{Value, Fields, end, FieldPath}
use jetstack_secure.K8sDynamic.NestedFields.{NestedFields}

-- Declared in dynamic.go.
abbrev pub last_modified_time_field_name : String
last_modified_time_field_name = "_lastModifiedTime"

abbrev pub secret_selected_fields : List FieldPath
secret_selected_fields =
    ("kind" ∷ [])
    ∷ ("apiVersion" ∷ [])
    ∷ ("metadata" ∷ "annotations" ∷ [])
    ∷ ("metadata" ∷ "labels" ∷ [])
    ∷ ("metadata" ∷ "name" ∷ [])
    ∷ ("metadata" ∷ "namespace" ∷ [])
    ∷ ("metadata" ∷ "ownerReferences" ∷ [])
    ∷ ("metadata" ∷ "selfLink" ∷ [])
    ∷ ("metadata" ∷ "uid" ∷ [])
    ∷ ("metadata" ∷ "creationTimestamp" ∷ [])
    ∷ ("metadata" ∷ "deletionTimestamp" ∷ [])
    ∷ ("metadata" ∷ "resourceVersion" ∷ [])
    ∷ ("immutable" ∷ [])
    ∷ ("type" ∷ [])
    ∷ ("data" ∷ "tls.crt" ∷ [])
    ∷ ("data" ∷ "ca.crt" ∷ [])
    ∷ ("data" ∷ "conjur-map" ∷ [])
    ∷ (last_modified_time_field_name ∷ [])
    ∷ []

abbrev pub route_selected_fields : List FieldPath
route_selected_fields =
    ("kind" ∷ [])
    ∷ ("apiVersion" ∷ [])
    ∷ ("metadata" ∷ "annotations" ∷ [])
    ∷ ("metadata" ∷ "name" ∷ [])
    ∷ ("metadata" ∷ "namespace" ∷ [])
    ∷ ("metadata" ∷ "ownerReferences" ∷ [])
    ∷ ("metadata" ∷ "selfLink" ∷ [])
    ∷ ("metadata" ∷ "uid" ∷ [])
    ∷ ("metadata" ∷ "creationTimestamp" ∷ [])
    ∷ ("metadata" ∷ "deletionTimestamp" ∷ [])
    ∷ ("metadata" ∷ "resourceVersion" ∷ [])
    ∷ ("spec" ∷ "host" ∷ [])
    ∷ ("spec" ∷ "to" ∷ "kind" ∷ [])
    ∷ ("spec" ∷ "to" ∷ "name" ∷ [])
    ∷ ("spec" ∷ "to" ∷ "weight" ∷ [])
    ∷ ("spec" ∷ "tls" ∷ "termination" ∷ [])
    ∷ ("spec" ∷ "tls" ∷ "certificate" ∷ [])
    ∷ ("spec" ∷ "tls" ∷ "caCertificate" ∷ [])
    ∷ ("spec" ∷ "tls" ∷ "destinationCACertificate" ∷ [])
    ∷ ("spec" ∷ "tls" ∷ "insecureEdgeTerminationPolicy" ∷ [])
    ∷ ("spec" ∷ "wildcardPolicy" ∷ [])
    ∷ ("status" ∷ [])
    ∷ []

abbrev pub redact_fields : List FieldPath
redact_fields =
    ("metadata" ∷ "managedFields" ∷ [])
    ∷ ("metadata" ∷ "annotations" ∷ "kubectl.kubernetes.io/last-applied-configuration" ∷ [])
    ∷ ("metadata" ∷ "annotations" ∷ "kapp.k14s.io/original" ∷ [])
    ∷ ("metadata" ∷ "annotations" ∷ "objectset.rio.cattle.io/applied" ∷ [])
    ∷ ("metadata" ∷ "annotations" ∷ "banzaicloud.com/last-applied" ∷ [])
    ∷ []

module _ (n : NestedFields) where
  open n use {nested_field, set_nested_field, remove_nested_field}

  -- A field that is not found is skipped.
  unfoldable pub put_found : Fields → FieldPath → Option Value → Result String Fields
  put_found new path none = ok new
  put_found new path (some value) = set_nested_field new value path

  -- One round of the loop of `Select`.
  unfoldable pub copy_field : Fields → Fields → FieldPath → Result String Fields
  copy_field resource new path = nested_field resource path >>= put_found new path

  unfoldable pub copy_fields : Fields → Fields → List FieldPath → Result String Fields
  copy_fields resource new [] = ok new
  copy_fields resource new (path ∷ paths) = do
    new' ← copy_field resource new path
    copy_fields resource new' paths

  -- The resource's new object; on an error the resource stays as it was.
  unfoldable pub select : List FieldPath → Fields → Result String Fields
  select paths resource = copy_fields resource end paths

  unfoldable pub redact : List FieldPath → Fields → Fields
  redact [] resource = resource
  redact (path ∷ paths) resource = redact paths (remove_nested_field resource path)
