-- ===== src/K8sDynamic/Redaction/Kept.antt =====
-- What redaction keeps of a Secret, and what encryption adds to it.
use mathlib.Core.List.{Memᴰ}
use jetstack_secure.Prelude.{
  String, ◌≡◌, refl, sym, ap, ◌∙◌, Bool, true, false, ◌||◌, Option, none, some, List, [], ◌∷◌, ◌++◌,
  arith, ◌==◌, eq_iff, Bool-cases, inl, inr, is_set,
}
use jetstack_secure.Prelude.Results.{Result, ok, >>=-eq-ok, Result-cases, or_error, or_error_lem}
use jetstack_secure.K8sDynamic.Values.{
  Items, Value, obj, text, field, end, Fields, FieldPath, apart,
}
use jetstack_secure.K8sDynamic.FieldFilter.{secret_selected_fields}
use jetstack_secure.K8sDynamic.FieldFilter.Selecting.{pairwise_apart, nested_field-select_mem}
use jetstack_secure.K8sDynamic.Resources.{GroupVersionKind, unstructured, Kube}
use jetstack_secure.K8sDynamic.Redaction.{
  Error, Encryptor, EncryptedData, Redactor, is_secret, secret_fields, redact_secret, redact_kind,
  redact_kinds, remove_common, redact_unstructured, or_unchanged, encrypt_data_field, try_encrypt,
  try_last_modified, write_last_modified_time, to_map, as_map, write_latest,
}
use jetstack_secure.K8sDynamic.Redaction.Secrets.{remove_common-apart, continue_lem, selected_lem}

-- A field that the preparation of a secret may write.
abbrev pub is_synthetic : String → Bool
is_synthetic k = k == "_encryptedData" || k == "_lastModifiedTime"

pairwise_apart-secret_fields : (g : Redactor) → pairwise_apart (secret_fields g) ≡ true
unfolding secret_fields apart
pairwise_apart-secret_fields g =
    elim g.encryptor as (λ e. pairwise_apart (secret_fields (record g { encryptor = e })) ≡ true) [
      | none ↦ refl
      | some e ↦ refl
    ]

top-apart : (name k : String) (p : FieldPath) → k == name ≡ false → apart (name ∷ []) (k ∷ p) ≡ true
unfolding apart
top-apart name k p h = ground (arith, eq_iff k name, eq_iff name k)

as_map_lem : (v : Value) (m : Fields) → as_map v ≡ ok m → v ≡ obj m
unfolding as_map
as_map_lem (obj n) m h = cc
as_map_lem v m h = cc

mem-last {ℓ} : {A : Type ℓ} (xs : List A) (x : A) → Memᴰ x (xs ++ x ∷ [])
mem-last [] x = Memᴰ.head refl
mem-last (y ∷ xs) x = Memᴰ.tail (mem-last xs x)

mem-encrypted :
    (g : Redactor) (e : Encryptor)
    → g.encryptor ≡ some e
    → Memᴰ ("_encryptedData" ∷ []) (secret_fields g)
unfolding secret_fields
mem-encrypted g e on =
    rw (on, secret_fields) (mem-last secret_selected_fields ("_encryptedData" ∷ []))

module _ (kube : Kube) where
  open kube.fields use {
    nested_field, set_nested_field, nested_field-set_apart, nested_field-set_self,
    set_nested_field-top,
  }

  or_unchanged-apart :
      (o : Fields) (v : Value) (name k : String) (p : FieldPath)
      → k == name ≡ false
      → nested_field (or_unchanged o (set_nested_field o v (name ∷ []))) (k ∷ p)
        ≡ nested_field o (k ∷ p)
  unfolding or_unchanged
  or_unchanged-apart o v name k p h =
      let (o', set) = set_nested_field-top o v name in
      rw (set, or_unchanged)
        (nested_field-set_apart o v (name ∷ []) (k ∷ p) o' (top-apart name k p h) set)

  write_last_modified_time-apart :
      (o : Fields) (latest k : String) (p : FieldPath)
      → k == "_lastModifiedTime" ≡ false
      → nested_field (write_last_modified_time kube o latest) (k ∷ p) ≡ nested_field o (k ∷ p)
  unfolding write_last_modified_time
  write_last_modified_time-apart o latest k p h = elim (Bool-cases (is_set latest)) [
    | inl e ↦ rw e (or_unchanged-apart o (text latest) "_lastModifiedTime" k p h)
    | inr e ↦ rw e
  ]

  write_latest-apart :
      (o : Fields) (r : Result String (Option Items)) (k : String) (p : FieldPath)
      → k == "_lastModifiedTime" ≡ false
      → nested_field (write_latest kube o r) (k ∷ p) ≡ nested_field o (k ∷ p)
  unfolding write_latest
  write_latest-apart o (ok (some entries)) k p h = write_last_modified_time-apart o _ k p h
  write_latest-apart o _ k p h = refl

  pub try_last_modified-apart :
      (b : Bool) (o : Fields) (k : String) (p : FieldPath)
      → k == "_lastModifiedTime" ≡ false
      → nested_field (try_last_modified kube b o) (k ∷ p) ≡ nested_field o (k ∷ p)
  unfolding try_last_modified
  try_last_modified-apart false o k p h = refl
  try_last_modified-apart true o k p h =
      write_latest-apart o (kube.nested_slice o ("metadata" ∷ "managedFields" ∷ [])) k p h

  -- What a successful encryption did: it read the data, and wrote the encrypted data.
  pub encrypt_data_field-inv :
      (encryptor : Encryptor) (o o' : Fields)
      → encrypt_data_field kube encryptor o ≡ ok o'
      → (m : Fields) × (s : String) × (ed : EncryptedData) × (nested_field o ("data" ∷ [])
          ≡ ok (some (obj m)))
        × (kube.marshal m ≡ ok s)
        × (encryptor s ≡ ok ed)
        × (set_nested_field o (obj (to_map kube ed)) ("_encryptedData" ∷ []) ≡ ok o')
  unfolding encrypt_data_field
  encrypt_data_field-inv encryptor o o' h =
      let (found, read, h1) = >>=-eq-ok (nested_field o ("data" ∷ [])) _ h in
      let (v, there, h2) = >>=-eq-ok (or_error found "no data field found on secret") _ h1 in
      let (m, a_map, h3) = >>=-eq-ok (as_map v) _ h2 in
      let (s, marshalled, h4) = >>=-eq-ok (kube.marshal m) _ h3 in
      let (ed, made, h5) = >>=-eq-ok (encryptor s) _ h4 in
      (
        m,
        s,
        ed,
        read ∙ ap ok (or_error_lem found _ there ∙ ap some (as_map_lem v m a_map)),
        marshalled,
        made,
        h5,
      )

  try_encrypt-apart :
      (e : Option Encryptor) (o : Fields) (k : String) (p : FieldPath)
      → is_synthetic k ≡ false
      → nested_field (try_encrypt kube e o) (k ∷ p) ≡ nested_field o (k ∷ p)
  unfolding try_encrypt
  try_encrypt-apart none o k p h = refl
  try_encrypt-apart (some e) o k p h = elim (Result-cases (encrypt_data_field kube e o)) [
    | inl (o', done) ↦
        let (m, s, ed, read, marshalled, made, set) = encrypt_data_field-inv e o o' done in
        rw (done, or_unchanged)
          (nested_field-set_apart o _ ("_encryptedData" ∷ []) (k ∷ p) o'
            (top-apart "_encryptedData" k p (ground arith)) set)
    | inr (e', failed) ↦ rw (failed, or_unchanged)
  ]

  -- A redacted secret keeps the value of every selected field that redaction does not write itself.
  pub redact_secret-keeps :
      (g : Redactor) (o : Fields) (k : String) (p : FieldPath)
      → Memᴰ (k ∷ p) (secret_fields g)
      → is_synthetic k ≡ false
      → (redact_secret kube g o).0 ≡ none
      → nested_field (redact_secret kube g o).1 (k ∷ p) ≡ nested_field o (k ∷ p)
  unfolding redact_secret
  redact_secret-keeps g o k p m plain h =
      nested_field-select_mem kube.fields (secret_fields g) _ k p _ (pairwise_apart-secret_fields g)
        m (selected_lem _ _ h)
      ∙ try_last_modified-apart g.include_last_modified_time _ k p (ground arith)
      ∙ try_encrypt-apart g.encryptor o k p plain

  -- An object whose one kind is Secret takes the secret's branch, and then the common removals.
  pub redact_unstructured-secret :
      (g : Redactor) (gvk : GroupVersionKind) (o : Fields)
      → kube.object_kinds (unstructured o) ≡ ok (gvk ∷ [])
      → is_secret gvk ≡ true
      → (redact_unstructured kube g o).0 ≡ none
      → ((redact_secret kube g o).0 ≡ none)
        × ((redact_unstructured kube g o).1 ≡ remove_common kube g (redact_secret kube g o).1)
  unfolding redact_unstructured redact_kinds redact_kind
  redact_unstructured-secret g gvk o kinds secret h =
      let h' = rw (kinds, redact_unstructured) at h in
      let (first, chain) =
        continue_lem (redact_kinds kube g (gvk ∷ []) o) (λ o'. (none, remove_common kube g o'))
          h' in
      let (second, chain') = continue_lem (redact_kind kube g gvk o) (λ o'. (none, o')) first in
      let kind : redact_kind kube g gvk o ≡ redact_secret kube g o = rw secret in
      (
        ap (λ (r : Error × Fields). r.0) (sym kind) ∙ second,
        rw (kinds, redact_unstructured)
            (ap (λ (r : Error × Fields). r.1) chain
              ∙ ap (remove_common kube g) (
                  ap (λ (r : Error × Fields). r.1) chain' ∙ ap (λ (r : Error × Fields). r.1) kind)),
      )

  -- When an object whose one kind is Secret has been redacted without an error, every field of the
  -- allow-list outside `metadata` that redaction does not write itself has the value that it had.
  pub redact_unstructured-keeps :
      (g : Redactor) (gvk : GroupVersionKind) (o : Fields) (k : String) (p : FieldPath)
      → kube.object_kinds (unstructured o) ≡ ok (gvk ∷ [])
      → is_secret gvk ≡ true
      → Memᴰ (k ∷ p) (secret_fields g)
      → is_synthetic k ≡ false
      → k == "metadata" ≡ false
      → (redact_unstructured kube g o).0 ≡ none
      → nested_field (redact_unstructured kube g o).1 (k ∷ p) ≡ nested_field o (k ∷ p)
  unfolding redact_unstructured
  redact_unstructured-keeps g gvk o k p kinds secret m plain outside h =
      let (first, result) = redact_unstructured-secret g gvk o kinds secret h in
      rw result (
        remove_common-apart kube g (redact_secret kube g o).1 k p outside
        ∙ redact_secret-keeps g o k p m plain first)

  try_encrypt-run :
      (g : Redactor) (encryptor : Encryptor) (o m : Fields) (s : String) (ed : EncryptedData)
      → g.encryptor ≡ some encryptor
      → nested_field o ("data" ∷ []) ≡ ok (some (obj m))
      → kube.marshal m ≡ ok s
      → encryptor s ≡ ok ed
      → nested_field (try_encrypt kube g.encryptor o) ("_encryptedData" ∷ [])
        ≡ ok (some (obj (to_map kube ed)))
  unfolding try_encrypt
  try_encrypt-run g encryptor o m s ed on read marshalled made =
      let (o', set) = set_nested_field-top o (obj (to_map kube ed)) "_encryptedData" in
      let run : encrypt_data_field kube encryptor o ≡ ok o' =
        unfold encrypt_data_field in (rw (read, as_map, marshalled, made) set) in
      rw (on, try_encrypt)
        (rw (run, or_unchanged) (nested_field-set_self o _ ("_encryptedData" ∷ []) o' set))

  -- When an object whose one kind is Secret has been redacted without an error, its data was a map, and
  -- this marshals and is encrypted, then the redacted object carries under `_encryptedData` the encrypted
  -- data in base64, and its type.
  pub redact_unstructured-encrypts :
      (g : Redactor) (encryptor : Encryptor) (gvk : GroupVersionKind) (o m : Fields) (s : String)
      (ed : EncryptedData)
      → g.encryptor ≡ some encryptor
      → kube.object_kinds (unstructured o) ≡ ok (gvk ∷ [])
      → is_secret gvk ≡ true
      → nested_field o ("data" ∷ []) ≡ ok (some (obj m))
      → kube.marshal m ≡ ok s
      → encryptor s ≡ ok ed
      → (redact_unstructured kube g o).0 ≡ none
      → nested_field (redact_unstructured kube g o).1 ("_encryptedData" ∷ [])
        ≡ ok (
            some (
              obj (field "data" (text (kube.base64 ed.payload)) (field "type" (text ed.kind) end))))
  unfolding redact_secret to_map
  redact_unstructured-encrypts g encryptor gvk o m s ed on kinds secret read marshalled made h =
      let (first, result) = redact_unstructured-secret g gvk o kinds secret h in
      rw result (
        remove_common-apart kube g (redact_secret kube g o).1 "_encryptedData" [] refl
        ∙ nested_field-select_mem kube.fields (secret_fields g) _ "_encryptedData" [] _
            (pairwise_apart-secret_fields g) (mem-encrypted g encryptor on) (selected_lem _ _ first)
        ∙ try_last_modified-apart g.include_last_modified_time _ "_encryptedData" [] refl
        ∙ try_encrypt-run g encryptor o m s ed on read marshalled made)
