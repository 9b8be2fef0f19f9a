-- ===== src/K8sDynamic/Redaction/Keys.antt =====
-- Which annotations and labels of an unstructured object survive redaction.
use mathlib.Core.List.{Memᴰ}
use jetstack_secure.Prelude.{
  String, ◌≡◌, ◌≢◌, refl, sym, ap, ◌∙◌, ◌↔◌, true, false, Option, some, List, [], ◌∷◌, ◌++◌, arith,
  ◌==◌, eq_iff, Bool-cases, inl, inr, true≢false, map,
}
use jetstack_secure.Prelude.Results.{Result, ok}
use jetstack_secure.Prelude.Lists.{contains}
use jetstack_secure.K8sDynamic.Values.{
  Value, obj, Fields, FieldPath, without_keys, lookup-without_keys, apart,
}
use jetstack_secure.K8sDynamic.FieldFilter.{redact_fields, redact}
use jetstack_secure.K8sDynamic.FieldFilter.Selecting.{
  all_apart, pairwise_apart, nested_field-redact_apart, nested_field-redact_mem,
}
use jetstack_secure.K8sDynamic.Resources.{Kube, Regexp}
use jetstack_secure.K8sDynamic.Redaction.Secrets.{remove_unstructured_keys-apart}
use jetstack_secure.K8sDynamic.Redaction.{
  Redactor, matches_any, delete_keys, remove_unstructured_keys, remove_common,
}

-- The entries of `RedactFields` under the annotations.
abbrev pub redacted_annotations : List String
redacted_annotations =
    "kubectl.kubernetes.io/last-applied-configuration" ∷ "kapp.k14s.io/original"
    ∷ "objectset.rio.cattle.io/applied" ∷ "banzaicloud.com/last-applied" ∷ []

annotation-apart :
    (k : String)
    → contains redacted_annotations k ≡ false
    → all_apart redact_fields ("metadata" ∷ "annotations" ∷ k ∷ []) ≡ true
unfolding apart
annotation-apart k h = ground arith

redact_fields-apart : pairwise_apart redact_fields ≡ true
unfolding apart
redact_fields-apart = refl

abbrev annotation_path : String → FieldPath
annotation_path k = "metadata" ∷ "annotations" ∷ k ∷ []

mem-annotation_path :
    (ks : List String) (k : String)
    → contains ks k ≡ true
    → Memᴰ (annotation_path k) (map annotation_path ks)
mem-annotation_path [] k h = cc
mem-annotation_path (j ∷ ks) k h = elim (Bool-cases (j == k)) [
  | inl same ↦ Memᴰ.head (ap annotation_path (sym ((eq_iff j k).0 same)))
  | inr other ↦ Memᴰ.tail (mem-annotation_path ks k (rw other at h))
]

module _ (kube : Kube) where
  open kube.fields use {
    nested_field, write_through, nested_field-write_self, nested_field-append, nested_field-below,
  }

  delete_keys_iff :
      (patterns : List Regexp) (o : Fields) (p : FieldPath) (k : String) (v : Value)
      (r : Result String (Option Value))
      → nested_field o p ≡ r
      → (nested_field (delete_keys kube patterns o p r) (p ++ k ∷ []) ≡ ok (some v))
        ↔ ((nested_field o (p ++ k ∷ []) ≡ ok (some v)) × (matches_any patterns k ≡ false))
  unfolding delete_keys
  delete_keys_iff patterns o p k v (ok (some (obj m))) e =
      let o' = write_through o p (without_keys (matches_any patterns) m) in
      let written = nested_field-write_self o p m (without_keys (matches_any patterns) m) e in
      let after = nested_field-append o' p (without_keys (matches_any patterns) m) k written in
      let before = nested_field-append o p m k e in
      rw (after, before, lookup-without_keys (matches_any patterns) k m) (ground arith)
  delete_keys_iff patterns o p k v r e =
      (λ h. let (m, is_map, found) = nested_field-below o p k v h in (h, cc), λ h. h.0)

  remove_unstructured_keys_iff :
      (patterns : List Regexp) (o : Fields) (p : FieldPath) (k : String) (v : Value)
      → (nested_field (remove_unstructured_keys kube patterns o p) (p ++ k ∷ []) ≡ ok (some v))
        ↔ ((nested_field o (p ++ k ∷ []) ≡ ok (some v)) × (matches_any patterns k ≡ false))
  unfolding remove_unstructured_keys
  remove_unstructured_keys_iff patterns o p k v =
      delete_keys_iff patterns o p k v (nested_field o p) refl

  redact-annotation_iff :
      (o : Fields) (k : String) (v : Value)
      → (nested_field (redact kube.fields redact_fields o) ("metadata" ∷ "annotations" ∷ k ∷ [])
          ≡ ok (some v))
        ↔ ((nested_field o ("metadata" ∷ "annotations" ∷ k ∷ []) ≡ ok (some v))
            × (contains redacted_annotations k ≡ false))
  redact-annotation_iff o k v = elim (Bool-cases (contains redacted_annotations k)) [
    | inl listed ↦ (
      λ h. absurd (
          nested_field-redact_mem kube.fields redact_fields o "metadata" ("annotations" ∷ k ∷ []) v
            redact_fields-apart (Memᴰ.tail (mem-annotation_path redacted_annotations k listed)) h),
      λ h. absurd (true≢false (sym listed ∙ h.1)),
    )
    | inr other ↦
        rw
          (nested_field-redact_apart kube.fields redact_fields o
            ("metadata" ∷ "annotations" ∷ k ∷ []) (annotation-apart k other))
          (λ h. (h, other), λ h. h.0)
  ]

  -- An annotation of the object is found after the common removals exactly when it was there before,
  -- is none of the redacted annotations, and matches no excluded pattern.
  pub remove_common-annotation_iff :
      (g : Redactor) (o : Fields) (k : String) (v : Value)
      → (nested_field (remove_common kube g o) ("metadata" ∷ "annotations" ∷ k ∷ []) ≡ ok (some v))
        ↔ ((nested_field o ("metadata" ∷ "annotations" ∷ k ∷ []) ≡ ok (some v))
            × (contains redacted_annotations k ≡ false)
            × (matches_any g.exclude_annot_keys k ≡ false))
  unfolding remove_common apart
  remove_common-annotation_iff g o k v =
      let (down, up) =
        remove_unstructured_keys_iff g.exclude_annot_keys (redact kube.fields redact_fields o)
          ("metadata" ∷ "annotations" ∷ []) k v in
      let (down', up') = redact-annotation_iff o k v in
      let other_map =
        remove_unstructured_keys-apart kube g.exclude_label_keys
          (remove_unstructured_keys kube g.exclude_annot_keys (redact kube.fields redact_fields o)
            ("metadata" ∷ "annotations" ∷ []))
          ("metadata" ∷ "labels" ∷ []) ("metadata" ∷ "annotations" ∷ k ∷ []) refl in
      rw other_map (
        λ h. ((down' (down h).0).0, (down' (down h).0).1, (down h).1),
        λ h. up (up' (h.0, h.1), h.2),
      )

  -- A label of the object is found after the common removals exactly when it was there before and
  -- matches no excluded pattern.
  remove_common-label_iff :
      (g : Redactor) (o : Fields) (k : String) (v : Value)
      → (nested_field (remove_common kube g o) ("metadata" ∷ "labels" ∷ k ∷ []) ≡ ok (some v)) ↔ (
          (nested_field o ("metadata" ∷ "labels" ∷ k ∷ []) ≡ ok (some v))
          × (matches_any g.exclude_label_keys k ≡ false))
  unfolding remove_common apart
  remove_common-label_iff g o k v =
      let redacted = redact kube.fields redact_fields o in
      let annotated =
        remove_unstructured_keys kube g.exclude_annot_keys redacted
          ("metadata" ∷ "annotations" ∷ []) in
      let (down, up) =
        remove_unstructured_keys_iff g.exclude_label_keys annotated ("metadata" ∷ "labels" ∷ []) k
          v in
      let same =
        remove_unstructured_keys-apart kube g.exclude_annot_keys redacted
          ("metadata" ∷ "annotations" ∷ []) ("metadata" ∷ "labels" ∷ k ∷ []) refl
        ∙ nested_field-redact_apart kube.fields redact_fields o ("metadata" ∷ "labels" ∷ k ∷ [])
            refl in
      (λ h. (sym same ∙ (down h).0, (down h).1), λ h. up (same ∙ h.0, h.1))

  -- The common removals leave no managed fields.
  remove_common-managed_fields :
      (g : Redactor) (o : Fields) (v : Value)
      → nested_field (remove_common kube g o) ("metadata" ∷ "managedFields" ∷ []) ≢ ok (some v)
  unfolding remove_common apart
  remove_common-managed_fields g o v h =
      let redacted = redact kube.fields redact_fields o in
      let annotated =
        remove_unstructured_keys kube g.exclude_annot_keys redacted
          ("metadata" ∷ "annotations" ∷ []) in
      nested_field-redact_mem kube.fields redact_fields o "metadata" ("managedFields" ∷ []) v
        redact_fields-apart (Memᴰ.head refl)
        (sym (
            remove_unstructured_keys-apart kube g.exclude_label_keys annotated
              ("metadata" ∷ "labels" ∷ []) ("metadata" ∷ "managedFields" ∷ []) refl
            ∙ remove_unstructured_keys-apart kube g.exclude_annot_keys redacted
                ("metadata" ∷ "annotations" ∷ []) ("metadata" ∷ "managedFields" ∷ []) refl)
          ∙ h)
