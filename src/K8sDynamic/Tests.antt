-- ===== src/K8sDynamic/Tests.antt =====
-- Runs of the gatherer on small objects, over the JSON values and the cache in memory.
use mathlib.Core.List.{Memᴰ}
use jetstack_secure.Prelude.{
  String, ◌≡◌, ◌↔◌, refl, ◌==◌, true, false, Option, none, some, List, [], ◌∷◌, arith,
  if◌then◌else◌,
}
use jetstack_secure.Prelude.Results.{Result, ok, err}
use jetstack_secure.Prelude.Lists.{contains}
use jetstack_secure.K8sDynamic.Values.{
  text, obj, arr, Items, nil, item, Fields, end, field, FieldPath, lookup, apart,
}
use jetstack_secure.K8sDynamic.JsonFields.{get_in}
use jetstack_secure.K8sDynamic.JsonFields.Model.{json_fields}
use jetstack_secure.K8sDynamic.MemoryCache.{memory_cache}
use jetstack_secure.K8sDynamic.FieldFilter.{copy_fields, copy_field, put_found}
use jetstack_secure.K8sDynamic.Resources.{Resource, unstructured, Kube, GroupVersionKind}
use jetstack_secure.K8sDynamic.Redaction.{
  Redactor, EncryptedData, Encryptor, redact_unstructured, remove_common, matches_any, to_map,
  redact_resource,
}
use jetstack_secure.K8sDynamic.Redaction.Secrets.{redact_unstructured-hides}
use jetstack_secure.K8sDynamic.Redaction.Kept.{
  redact_unstructured-keeps, redact_unstructured-encrypts,
}
use jetstack_secure.K8sDynamic.Redaction.Keys.{redacted_annotations, remove_common-annotation_iff}
use jetstack_secure.K8sDynamic.Cache.{
  Heap, GatheredResource, update_cache_gathered_resource, on_add, on_delete, on_update,
}
use jetstack_secure.K8sDynamic.Cache.History.{
  Occurrence, add, delete, replay, handle, get-replay_new, update_cache_gathered_resource_lem,
}
use jetstack_secure.K8sDynamic.Fetch.{DataGatherer, fetch}
use jetstack_secure.K8sDynamic.Fetch.Laws.{fetch-mem_iff, IsWanted}
use jetstack_secure.K8sDynamic.Fetch.Hiding.{fetch-hides}
use jetstack_secure.K8sDynamic.Validation.{ConfigDynamic, Parsers, ValidationError, validate}
use jetstack_secure.K8sDynamic.Validation.Accepted.{IsValid, validate_iff}

-- What the tests compute with.
computes : Unit {0}
unfolding json_fields memory_cache redact_unstructured fetch lookup apart replay handle on_add
    on_delete on_update to_map copy_fields copy_field put_found redact_resource
computes = tt

unfoldable text_at : Fields → FieldPath → String
unfolding get_in
text_at o p = elim (get_in (obj o) p) [ ok (some (text s)) ↦ s | _ ↦ "" ]

unfoldable keys : Fields → List String
keys end = []
keys (field k v m) = k ∷ keys m

unfoldable keys_at : Fields → FieldPath → List String
unfolding get_in keys
keys_at o p = elim (get_in (obj o) p) [ ok (some (obj m)) ↦ keys m | _ ↦ [] ]

unfoldable items_at : Fields → FieldPath → Result String (Option Items)
unfolding get_in
items_at o p = elim (get_in (obj o) p) [
  | ok (some (arr xs)) ↦ ok (some xs)
  | ok none ↦ ok none
  | _ ↦ err "not a list"
]

unfoldable kinds : Resource → Result String (List GroupVersionKind)
unfolding text_at
kinds (unstructured o) =
    ok (record { group = ""; version = "v1"; kind = text_at o ("kind" ∷ []) } ∷ [])
kinds _ = err "not registered"

unfoldable small_kube : Kube
unfolding json_fields text_at keys_at items_at kinds
small_kube = record {
  fields = json_fields;
  nested_slice = items_at;
  object_kinds = kinds;
  gvr_string = λ gvr. gvr.resource;
  get_uid = λ o. text_at o ("metadata" ∷ "uid" ∷ []);
  get_namespace = λ o. text_at o ("metadata" ∷ "namespace" ∷ []);
  annotation_keys = λ o. keys_at o ("metadata" ∷ "annotations" ∷ []);
  label_keys = λ o. keys_at o ("metadata" ∷ "labels" ∷ []);
  parse_time = λ s. if s == "2024" then some 2024 else none;
  marshal = λ m. ok "json";
  base64 = λ s. s;
}

abbrev metadata : Fields
metadata = field "uid" (text "u1") (
    field "namespace" (text "prod") (
      field "annotations"
        (obj (field "team" (text "a") (field "kapp.k14s.io/original" (text "x") end)))
        (field "labels" (obj (field "app" (text "web") end))
          (field "managedFields" (arr (item (obj (field "time" (text "2024") end)) nil)) end))))

abbrev tls_data : Fields
tls_data = field "tls.crt" (text "crt") (field "tls.key" (text "key") end)

abbrev secret : Fields
secret = field "kind" (text "Secret") (
    field "metadata" (obj metadata)
      (field "data" (obj tls_data) (field "stringData" (text "s") end)))

abbrev secret_kind : GroupVersionKind
secret_kind = record { group = ""; version = "v1"; kind = "Secret" }

abbrev fixed : EncryptedData
fixed = record { payload = "sealed"; kind = "JWE" }

abbrev seal : Encryptor
seal s = ok fixed

abbrev sealing : Redactor
sealing = record {
  exclude_annot_keys = [];
  exclude_label_keys = (λ k. k == "app") ∷ [];
  encryptor = some seal;
  include_last_modified_time = true;
}

abbrev plain : Redactor
plain = record sealing { encryptor = none; exclude_label_keys = [] }

abbrev hidden : FieldPath
hidden = "data" ∷ "tls.key" ∷ []

redact_tests :
    (json_fields.nested_field (redact_unstructured small_kube sealing secret).1 hidden ≡ ok none)
    × (json_fields.nested_field
          (redact_unstructured small_kube sealing secret).1
          ("data" ∷ "tls.crt" ∷ [])
        ≡ ok (some (text "crt")))
    × (json_fields.nested_field
          (redact_unstructured small_kube sealing secret).1
          ("_lastModifiedTime" ∷ [])
        ≡ ok (some (text "2024")))
    × (json_fields.nested_field
          (redact_unstructured small_kube sealing secret).1
          ("metadata" ∷ "labels" ∷ [])
        ≡ ok (some (obj end)))
unfolding computes small_kube
redact_tests = (refl, refl, refl, refl)

redact_unstructured-hides_example :
    json_fields.nested_field (redact_unstructured small_kube sealing secret).1 hidden ≡ ok none
unfolding computes small_kube
redact_unstructured-hides_example =
    redact_unstructured-hides small_kube sealing (secret_kind ∷ []) secret "data" ("tls.key" ∷ [])
      refl refl refl refl refl refl

redact_unstructured-keeps_example :
    json_fields.nested_field
      (redact_unstructured small_kube sealing secret).1
      ("data" ∷ "tls.crt" ∷ [])
    ≡ json_fields.nested_field secret ("data" ∷ "tls.crt" ∷ [])
unfolding computes small_kube
redact_unstructured-keeps_example =
    redact_unstructured-keeps small_kube sealing secret_kind secret "data" ("tls.crt" ∷ []) refl
      refl
      (Memᴰ.tail (
        Memᴰ.tail (
          Memᴰ.tail (
            Memᴰ.tail (
              Memᴰ.tail (
                Memᴰ.tail (
                  Memᴰ.tail (
                    Memᴰ.tail (
                      Memᴰ.tail (
                        Memᴰ.tail
                          (Memᴰ.tail (Memᴰ.tail (Memᴰ.tail (Memᴰ.tail (Memᴰ.head refl)))))))))))))))
      refl refl refl

redact_unstructured-encrypts_example :
    json_fields.nested_field
      (redact_unstructured small_kube sealing secret).1
      ("_encryptedData" ∷ [])
    ≡ ok (
        some (
          obj (
            field "data"
              (text (small_kube.base64 fixed.payload))
              (field "type" (text fixed.kind) end))))
unfolding computes small_kube
redact_unstructured-encrypts_example =
    redact_unstructured-encrypts small_kube sealing seal secret_kind secret tls_data "json" fixed
      refl refl refl refl refl refl refl

remove_common-annotation_iff_example :
    (json_fields.nested_field
        (remove_common small_kube sealing secret)
        ("metadata" ∷ "annotations" ∷ "team" ∷ [])
      ≡ ok (some (text "a")))
    ↔ ((json_fields.nested_field secret ("metadata" ∷ "annotations" ∷ "team" ∷ [])
          ≡ ok (some (text "a")))
        × (contains redacted_annotations "team" ≡ false)
        × (matches_any sealing.exclude_annot_keys "team" ≡ false))
unfolding small_kube
remove_common-annotation_iff_example =
    remove_common-annotation_iff small_kube sealing secret "team" (text "a")

-- One object, at address 1.
abbrev objects : Heap
objects a = unstructured secret

abbrev arrival : Occurrence
arrival = record { time = 5; heap = objects; event = add 1 }

abbrev departure : Occurrence
departure = record { time = 7; heap = objects; event = delete 1 }

abbrev gone : GatheredResource
gone = record { resource = 1; deleted_at = 7 }

get-replay_new_example :
    (memory_cache GatheredResource 10).get 9
      (replay small_kube
        (memory_cache GatheredResource 10)
        (memory_cache GatheredResource 10).new
        (arrival ∷ departure ∷ []))
      "u1"
    ≡ some gone
unfolding computes small_kube
get-replay_new_example =
    get-replay_new small_kube (memory_cache GatheredResource 10) 9 "u1" (arrival ∷ departure ∷ [])
      (omega arith, (omega arith, tt))

update_cache_gathered_resource_example :
    update_cache_gathered_resource small_kube
      (memory_cache GatheredResource 10)
      9
      "u1"
      2
      ((memory_cache GatheredResource 10).set 7 (memory_cache GatheredResource 10).new "u1" gone)
    ≡ record { resource = 2; deleted_at = 0 }
update_cache_gathered_resource_example =
    update_cache_gathered_resource_lem small_kube (memory_cache GatheredResource 10) 9 "u1" 2
      ((memory_cache GatheredResource 10).set 7 (memory_cache GatheredResource 10).new "u1" gone)

abbrev secrets_gatherer : DataGatherer
secrets_gatherer = record {
  group_version_resource = record { group = ""; version = "v1"; resource = "secrets" };
  namespaces = "prod" ∷ [];
  redactor = plain;
}

abbrev cached : (memory_cache GatheredResource 10).Cache
cached =
    (memory_cache GatheredResource 10).set 5 (memory_cache GatheredResource 10).new "u1"
      (record { resource = 1; deleted_at = 0 })

abbrev fetched : GatheredResource
fetched = record { resource = 1; deleted_at = 0 }

fetch-mem_iff_example : Memᴰ fetched (fetched ∷ []) ↔ (
    (key : String) × ((memory_cache GatheredResource 10).get 9 cached key ≡ some fetched)
    × IsWanted small_kube secrets_gatherer objects fetched)
unfolding computes small_kube
fetch-mem_iff_example =
    fetch-mem_iff small_kube (memory_cache GatheredResource 10) secrets_gatherer objects 9 cached
      (fetched ∷ []) fetched refl

fetch-hides_example :
    (o' : Fields) × ((fetch small_kube
          (memory_cache GatheredResource 10)
          secrets_gatherer
          objects
          9
          cached).0.1
        1
      ≡ unstructured o')
    × (json_fields.nested_field o' hidden ≡ ok none)
unfolding computes small_kube
fetch-hides_example =
    fetch-hides small_kube (memory_cache GatheredResource 10) secrets_gatherer objects 9 cached
      (fetched ∷ []) fetched secret (secret_kind ∷ []) "data" ("tls.key" ∷ []) refl (tt, tt)
      (Memᴰ.head refl) refl refl refl refl refl refl

abbrev parsers : Parsers
parsers = record {
  parse_field_selector = λ s. if s == "=" then some "bad" else none;
  parse_label_selector = λ s. none;
  compile = λ s. none;
}

abbrev secrets_settings : ConfigDynamic
secrets_settings = record {
  kube_config_path = "";
  group_version_resource = record { group = ""; version = "v1"; resource = "secrets" };
  exclude_namespaces = "kube-system" ∷ [];
  include_namespaces = [];
  field_selectors = "type!=helm" ∷ "=" ∷ [];
  label_selectors = "" ∷ [];
  exclude_annotation_keys_regex = [];
  exclude_label_keys_regex = [];
}

validate_test :
    validate parsers secrets_settings
    ≡ ValidationError.field_selector 1 "bad" ∷ ValidationError.empty_label_selector 0 ∷ []
unfolding validate
validate_test = refl

validate_iff_example : (validate parsers secrets_settings ≡ []) ↔ IsValid parsers secrets_settings
validate_iff_example = validate_iff parsers secrets_settings
