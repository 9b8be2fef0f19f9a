-- ===== src/K8sDynamic/Redaction.antt =====
-- pkg/datagatherer/k8sdynamic/dynamic.go: what is removed from an object before it is uploaded,
-- `redactList` and the functions that it calls. An operation on an object returns the object that it
-- leaves, beside the error if there is one. What is only logged is left out.
pub mod Secrets
pub mod Kept
pub mod Keys
use jetstack_secure.Prelude.{
  ℕ, String, Bool, true, false, not, ◌&&◌, ◌||◌, Option, none, some, List, [], ◌∷◌, ◌++◌, ◌==◌, ltb,
  is_set, is_some, if◌then◌else◌,
}
use jetstack_secure.Prelude.Results.{Result, ok, err, ◌>>=◌, or_error}
use jetstack_secure.Prelude.Lists.{any, filter, is_empty}
use jetstack_secure.K8sDynamic.Values.{
  Value, text, obj, Items, nil, item, Fields, end, field, FieldPath, lookup, without_keys,
}
use jetstack_secure.K8sDynamic.FieldFilter.{
  last_modified_time_field_name, secret_selected_fields, route_selected_fields, redact_fields,
  select, redact,
}
use jetstack_secure.K8sDynamic.Resources.{
  GroupVersionKind, StringMap, TypedObject, Resource, unstructured, typed, foreign, Regexp, Kube,
}

abbrev pub encrypted_data_field_name : String
encrypted_data_field_name = "_encryptedData"

-- `envelope.EncryptedData`.
pub record EncryptedData : Type 0 where
  pub payload : String
  pub kind : String

-- `envelope.Encryptor`: an implementation may fail.
abbrev pub Encryptor : Type 0
Encryptor = String → Result String EncryptedData

-- Go's `error` as a second result: `none` is nil.
abbrev pub Error : Type 0
Error = Option String

-- The fields of `DataGathererDynamic` that redaction reads.
pub record Redactor : Type 0 where
  pub exclude_annot_keys : List Regexp
  pub exclude_label_keys : List Regexp
  pub encryptor : Option Encryptor
  pub include_last_modified_time : Bool

-- Some pattern matches the key.
unfoldable pub matches_any : List Regexp → String → Bool
matches_any patterns key = any (λ p. p key) patterns

unfoldable pub any_key_matches : List String → List Regexp → Bool
any_key_matches keys patterns = any (matches_any patterns) keys

unfoldable pub remove_typed_keys : List Regexp → StringMap → StringMap
remove_typed_keys patterns m = filter (λ (k, v). not (matches_any patterns k)) m

unfoldable pub is_secret : GroupVersionKind → Bool
is_secret gvk = gvk.kind == "Secret" && (gvk.group == "core" || gvk.group == "")

unfoldable pub is_route : GroupVersionKind → Bool
is_route gvk = gvk.kind == "Route" && gvk.group == "route.openshift.io"

-- The loop over managedFields of `setLastModifiedTime`: the latest time and its text so far.
unfoldable pub entry_time : Value → Option String
entry_time (obj m) = elim (lookup "time" m) [
  | some (text t) ↦ (if is_set t then some t else none)
  | _ ↦ none
]
entry_time _ = none

-- The error of `SetNestedField` is dropped.
unfoldable pub or_unchanged : Fields → Result String Fields → Fields
or_unchanged o (ok o') = o'
or_unchanged o (err e) = o

unfoldable pub as_map : Value → Result String Fields
as_map (obj m) = ok m
as_map v = err "secret data field is not of expected map type for encryption"

-- The allow-list of secrets, which grows by one field under encryption.
unfoldable pub secret_fields : Redactor → List FieldPath
secret_fields g = elim g.encryptor [
  | none ↦ secret_selected_fields
  | some _ ↦ secret_selected_fields ++ (encrypted_data_field_name ∷ []) ∷ []
]

-- The next step, unless there is an error.
unfoldable pub continue : Error × Fields → (Fields → Error × Fields) → Error × Fields
continue (none, o) next = next o
continue (some e, o) next = (some e, o)

-- `if err := Select(…); err != nil { return err }`, with the object that it leaves.
unfoldable pub selected : Fields → Result String Fields → Error × Fields
selected o (ok o') = (none, o')
selected o (err e) = (some e, o)

-- The first kind that is named, of a version that is not internal, is written back.
unfoldable pub assign_kind : TypedObject → List GroupVersionKind → TypedObject
assign_kind t [] = t
assign_kind t (gvk ∷ gvks) =
    let rest = assign_kind t gvks in
    if gvk.kind == ""
    then rest
    else if gvk.version == "" || gvk.version == "__internal"
    then rest
    else record t { type_meta = gvk }

unfoldable pub strip_typed : Redactor → TypedObject → TypedObject
unfolding remove_typed_keys
strip_typed g t = record t {
  managed_fields = [];
  annotations = remove_typed_keys g.exclude_annot_keys (
      filter (λ (k, v). not (k == "kubectl.kubernetes.io/last-applied-configuration"))
        t.annotations);
  labels = remove_typed_keys g.exclude_label_keys t.labels;
}

module _ (kube : Kube) where
  open kube.fields use {nested_field, set_nested_field, write_through}

  unfoldable pub resource_matches_exclusion_keys : Redactor → Resource → Bool
  unfolding any_key_matches
  resource_matches_exclusion_keys g (unstructured o) =
      any_key_matches (kube.annotation_keys o) g.exclude_annot_keys
      || any_key_matches (kube.label_keys o) g.exclude_label_keys
  resource_matches_exclusion_keys g _ = false

  unfoldable pub later_time : ℕ × String → Option String → ℕ × String
  later_time (latest, latest_text) none = (latest, latest_text)
  later_time (latest, latest_text) (some t) = elim (kube.parse_time t) [
    | none ↦ (latest, latest_text)
    | some parsed ↦ (if ltb latest parsed then (parsed, t) else (latest, latest_text))
  ]

  unfoldable pub latest_time : ℕ × String → Items → ℕ × String
  unfolding later_time entry_time
  latest_time latest nil = latest
  latest_time latest (item entry entries) =
      latest_time (later_time latest (entry_time entry)) entries

  unfoldable pub write_last_modified_time : Fields → String → Fields
  unfolding or_unchanged
  write_last_modified_time o latest =
      if is_set latest
      then or_unchanged o (set_nested_field o (text latest) (last_modified_time_field_name ∷ []))
      else o

  -- Nothing is written where managedFields is not a list, or is missing.
  unfoldable pub write_latest : Fields → Result String (Option Items) → Fields
  unfolding latest_time write_last_modified_time
  write_latest o (ok (some entries)) = write_last_modified_time o (latest_time (0, "") entries).1
  write_latest o _ = o

  unfoldable pub set_last_modified_time : Fields → Fields
  unfolding write_latest
  set_last_modified_time o =
      write_latest o (kube.nested_slice o ("metadata" ∷ "managedFields" ∷ []))

  -- `EncryptedData.ToMap`, of internal/envelope/types.go.
  unfoldable pub to_map : EncryptedData → Fields
  to_map ed = field "data" (text (kube.base64 ed.payload)) (field "type" (text ed.kind) end)

  unfoldable pub encrypt_data_field : Encryptor → Fields → Result String Fields
  unfolding to_map as_map
  encrypt_data_field encryptor secret = do
    found ← nested_field secret ("data" ∷ [])
    plaintext ← or_error found "no data field found on secret"
    plaintext_map ← as_map plaintext
    plaintext_data ← kube.marshal plaintext_map
    encrypted ← encryptor plaintext_data
    set_nested_field secret (obj (to_map encrypted)) (encrypted_data_field_name ∷ [])

  -- A failed encryption is logged, and the secret goes on to be redacted.
  unfoldable pub try_encrypt : Option Encryptor → Fields → Fields
  unfolding or_unchanged encrypt_data_field
  try_encrypt none secret = secret
  try_encrypt (some encryptor) secret = or_unchanged secret (encrypt_data_field encryptor secret)

  unfoldable pub try_last_modified : Bool → Fields → Fields
  unfolding set_last_modified_time
  try_last_modified false secret = secret
  try_last_modified true secret = set_last_modified_time secret

  -- Only a map is touched, in place.
  unfoldable pub delete_keys :
      List Regexp → Fields → FieldPath → Result String (Option Value) → Fields
  unfolding without_keys matches_any
  delete_keys patterns o path (ok (some (obj m))) =
      write_through o path (without_keys (matches_any patterns) m)
  delete_keys patterns o path _ = o

  -- `RemoveUnstructuredKeys`.
  unfoldable pub remove_unstructured_keys : List Regexp → Fields → FieldPath → Fields
  unfolding delete_keys
  remove_unstructured_keys patterns o path = delete_keys patterns o path (nested_field o path)

  unfoldable pub redact_secret : Redactor → Fields → Error × Fields
  unfolding try_encrypt try_last_modified secret_fields select selected
  redact_secret g o =
      let prepared = try_last_modified g.include_last_modified_time (try_encrypt g.encryptor o) in
      selected prepared (select kube.fields (secret_fields g) prepared)

  unfoldable pub redact_route : Fields → Error × Fields
  unfolding select selected
  redact_route o = selected o (select kube.fields route_selected_fields o)

  unfoldable pub redact_kind : Redactor → GroupVersionKind → Fields → Error × Fields
  unfolding is_secret is_route redact_secret redact_route
  redact_kind g gvk o =
      if is_secret gvk
      then redact_secret g o
      else if is_route gvk
      then redact_route o
      else (none, o)

  unfoldable pub redact_kinds : Redactor → List GroupVersionKind → Fields → Error × Fields
  unfolding redact_kind continue
  redact_kinds g [] o = (none, o)
  redact_kinds g (gvk ∷ gvks) o = continue (redact_kind g gvk o) (λ o'. redact_kinds g gvks o')

  -- After the special cases, every object loses the redacted fields and the excluded keys.
  unfoldable pub remove_common : Redactor → Fields → Fields
  unfolding redact remove_unstructured_keys
  remove_common g o =
      remove_unstructured_keys g.exclude_label_keys
        (remove_unstructured_keys g.exclude_annot_keys (redact kube.fields redact_fields o)
          ("metadata" ∷ "annotations" ∷ []))
        ("metadata" ∷ "labels" ∷ [])

  unfoldable pub redact_unstructured : Redactor → Fields → Error × Fields
  unfolding redact_kinds remove_common
  redact_unstructured g o = elim (kube.object_kinds (unstructured o)) [
    | err e ↦ (some e, o)
    | ok gvks ↦ continue (redact_kinds g gvks o) (λ o'. (none, remove_common g o'))
  ]

  unfoldable pub redact_typed : Redactor → TypedObject → Error × TypedObject
  unfolding strip_typed assign_kind
  redact_typed g t =
      let stripped = strip_typed g t in
      elim (kube.object_kinds (typed stripped)) [
        | err e ↦ (some e, stripped)
        | ok gvks ↦ (none, assign_kind stripped gvks)
      ]

  -- One round of the loop of `redactList`.
  unfoldable pub redact_resource : Redactor → Resource → Error × Resource
  unfolding redact_unstructured redact_typed
  redact_resource g (unstructured o) = let (e, o') = redact_unstructured g o in (e, unstructured o')
  redact_resource g (typed t) = let (e, t') = redact_typed g t in (e, typed t')
  redact_resource g (foreign s) = (none, foreign s)
