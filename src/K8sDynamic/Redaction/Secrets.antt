-- ===== src/K8sDynamic/Redaction/Secrets.antt =====
-- What redaction leaves of a Secret.
use jetstack_secure.Prelude.{
  String, ◌≡◌, refl, sym, ◌∙◌, true, false, Option, none, some, List, [], ◌∷◌, arith, ◌==◌, eq_iff,
  Bool-cases, inl, inr, ◌⊎◌, true≢false,
}
use jetstack_secure.Prelude.Results.{Result, ok, err}
use jetstack_secure.Prelude.Lists.{any}
use jetstack_secure.K8sDynamic.Values.{Value, obj, Fields, FieldPath, apart}
use jetstack_secure.K8sDynamic.FieldFilter.{redact_fields}
use jetstack_secure.K8sDynamic.FieldFilter.Selecting.{
  all_apart, nested_field-select_apart, nested_field-redact_apart,
}
use jetstack_secure.K8sDynamic.Resources.{GroupVersionKind, unstructured, Kube, Regexp}
use jetstack_secure.K8sDynamic.Redaction.{
  Error, Redactor, is_secret, is_route, secret_fields, selected, continue, redact_secret,
  redact_kind, redact_kinds, delete_keys, remove_unstructured_keys, remove_common,
  redact_unstructured,
}

pub selected_lem :
    (o : Fields) (r : Result String Fields) → (selected o r).0 ≡ none → r ≡ ok (selected o r).1
unfolding selected
selected_lem o (ok o') h = refl
selected_lem o (err e) h = cc

metadata-apart :
    (k : String) (p q : FieldPath) → k == "metadata" ≡ false → apart ("metadata" ∷ p) (k ∷ q) ≡ true
unfolding apart
metadata-apart k p q a = ground (arith, eq_iff k "metadata", eq_iff "metadata" k)

redact_fields-apart :
    (k : String) (q : FieldPath) → k == "metadata" ≡ false → all_apart redact_fields (k ∷ q) ≡ true
redact_fields-apart k q a = simp (metadata-apart k _ q a)

-- A chain without an error has no error in its first step, and ends as the second does.
pub continue_lem :
    (m : Error × Fields) (next : Fields → Error × Fields)
    → (continue m next).0 ≡ none
    → (m.0 ≡ none) × (continue m next ≡ next m.1)
unfolding continue
continue_lem (none, o) next h = (refl, refl)
continue_lem (some e, o) next h = cc

module _ (kube : Kube) where
  open kube.fields use {nested_field, write_through, nested_field-write_apart}

  delete_keys-apart :
      (patterns : List Regexp) (o : Fields) (p q : FieldPath) (r : Result String (Option Value))
      → apart p q ≡ true
      → nested_field (delete_keys kube patterns o p r) q ≡ nested_field o q
  unfolding delete_keys
  delete_keys-apart patterns o p q (ok (some (obj m))) a = nested_field-write_apart o p q _ a
  delete_keys-apart patterns o p q _ a = refl

  pub remove_unstructured_keys-apart :
      (patterns : List Regexp) (o : Fields) (p q : FieldPath)
      → apart p q ≡ true
      → nested_field (remove_unstructured_keys kube patterns o p) q ≡ nested_field o q
  unfolding remove_unstructured_keys
  remove_unstructured_keys-apart patterns o p q a =
      delete_keys-apart patterns o p q (nested_field o p) a

  -- Below any field but `metadata`, the common removals change nothing.
  pub remove_common-apart :
      (g : Redactor) (o : Fields) (k : String) (q : FieldPath)
      → k == "metadata" ≡ false
      → nested_field (remove_common kube g o) (k ∷ q) ≡ nested_field o (k ∷ q)
  unfolding remove_common
  remove_common-apart g o k q a =
      remove_unstructured_keys-apart g.exclude_label_keys _ _ (k ∷ q) (metadata-apart k _ q a)
      ∙ remove_unstructured_keys-apart g.exclude_annot_keys _ _ (k ∷ q) (metadata-apart k _ q a)
      ∙ nested_field-redact_apart kube.fields redact_fields o (k ∷ q) (redact_fields-apart k q a)

  redact_secret-hides :
      (g : Redactor) (o : Fields) (k : String) (q : FieldPath)
      → all_apart (secret_fields g) (k ∷ q) ≡ true
      → (redact_secret kube g o).0 ≡ none
      → nested_field (redact_secret kube g o).1 (k ∷ q) ≡ ok none
  unfolding redact_secret
  redact_secret-hides g o k q a h =
      nested_field-select_apart kube.fields (secret_fields g) _ k q _ a (selected_lem _ _ h)

  redact_kind-hides :
      (g : Redactor) (gvk : GroupVersionKind) (o : Fields) (k : String) (q : FieldPath)
      → is_route gvk ≡ false
      → all_apart (secret_fields g) (k ∷ q) ≡ true
      → (is_secret gvk ≡ true) ⊎ (nested_field o (k ∷ q) ≡ ok none)
      → (redact_kind kube g gvk o).0 ≡ none
      → nested_field (redact_kind kube g gvk o).1 (k ∷ q) ≡ ok none
  unfolding redact_kind
  redact_kind-hides g gvk o k q r a either h = elim (Bool-cases (is_secret gvk)) [
    | inl secret ↦ rw secret (redact_secret-hides g o k q a (rw secret at h))
    | inr other ↦
        rw (other, r)
          (elim either [ inl s ↦ absurd (true≢false (sym s ∙ other)) | inr hidden ↦ hidden ])
  ]

  redact_kinds-hides :
      (g : Redactor) (gvks : List GroupVersionKind) (o : Fields) (k : String) (q : FieldPath)
      → any is_route gvks ≡ false
      → all_apart (secret_fields g) (k ∷ q) ≡ true
      → (any is_secret gvks ≡ true) ⊎ (nested_field o (k ∷ q) ≡ ok none)
      → (redact_kinds kube g gvks o).0 ≡ none
      → nested_field (redact_kinds kube g gvks o).1 (k ∷ q) ≡ ok none
  unfolding redact_kinds
  redact_kinds-hides g [] o k q r a (inl s) h = cc
  redact_kinds-hides g [] o k q r a (inr hidden) h = hidden
  redact_kinds-hides g (gvk ∷ gvks) o k q r a either h =
      let (first, chain) =
        continue_lem (redact_kind kube g gvk o) (λ o'. redact_kinds kube g gvks o') h in
      rw chain (
        redact_kinds-hides g gvks (redact_kind kube g gvk o).1 k q (ground arith) a
          (elim (Bool-cases (any is_secret gvks)) [
            | inl later ↦ inl later
            | inr never ↦ inr (
                redact_kind-hides g gvk o k q (ground arith) a
                  (elim either [ inl s ↦ inl (ground arith) | inr hidden ↦ inr hidden ]) first)
          ])
          (rw chain at h))

  -- When an object that is a Secret and no Route has been redacted without an error, nothing is
  -- found at a path outside `metadata` that parts from every field of the allow-list.
  pub redact_unstructured-hides :
      (g : Redactor) (gvks : List GroupVersionKind) (o : Fields) (k : String) (q : FieldPath)
      → kube.object_kinds (unstructured o) ≡ ok gvks
      → any is_secret gvks ≡ true
      → any is_route gvks ≡ false
      → k == "metadata" ≡ false
      → all_apart (secret_fields g) (k ∷ q) ≡ true
      → (redact_unstructured kube g o).0 ≡ none
      → nested_field (redact_unstructured kube g o).1 (k ∷ q) ≡ ok none
  unfolding redact_unstructured
  redact_unstructured-hides g gvks o k q kinds secret r outside a h =
      let h' = rw (kinds, redact_unstructured) at h in
      let (done, chain) =
        continue_lem (redact_kinds kube g gvks o) (λ o'. (none, remove_common kube g o')) h' in
      rw (kinds, redact_unstructured)
        (rw chain (
          remove_common-apart g (redact_kinds kube g gvks o).1 k q outside
          ∙ redact_kinds-hides g gvks o k q r a (inl secret) done))
