-- ===== src/K8sDynamic/Fetch/Hiding.antt =====
-- What `Fetch` leaves of the objects that it returns.
use mathlib.Core.List.{Memᴰ}
use jetstack_secure.Prelude.{
  ℕ, String, ◌≡◌, refl, sym, ap, ◌∙◌, true, false, none, List, [], ◌∷◌, arith, ◌==◌, eqb,
  Option-cases, inl, inr,
}
use jetstack_secure.Prelude.Results.{ok}
use jetstack_secure.Prelude.Lists.{any, All, All-mem}
use jetstack_secure.K8sDynamic.Values.{Fields, FieldPath}
use jetstack_secure.K8sDynamic.FieldFilter.Selecting.{all_apart}
use jetstack_secure.K8sDynamic.Resources.{Resource, unstructured, Kube, GroupVersionKind}
use jetstack_secure.K8sDynamic.Redaction.{
  Error, Redactor, secret_fields, is_secret, is_route, redact_resource, redact_unstructured,
}
use jetstack_secure.K8sDynamic.Redaction.Secrets.{redact_unstructured-hides}
use jetstack_secure.K8sDynamic.ExpiringCache.{ExpiringCache}
use jetstack_secure.K8sDynamic.Cache.{Heap, GatheredResource}
use jetstack_secure.K8sDynamic.Fetch.{DataGatherer, store, redact_list, fetch}
use jetstack_secure.K8sDynamic.Fetch.Laws.{fetch_items-inv, fetch-inv}

-- The items are different objects.
abbrev pub Distinct : List GatheredResource → Type 0
Distinct [] = Unit
Distinct (x ∷ xs) =
    All (λ (y : GatheredResource). eqb x.resource y.resource ≡ false) xs × Distinct xs

store_other : (heap : Heap) (a b : ℕ) (r : Resource) → eqb b a ≡ false → store heap a r b ≡ heap b
unfolding store
store_other heap a b r h = ground arith

store_same : (heap : Heap) (a : ℕ) (r : Resource) → store heap a r a ≡ r
unfolding store
store_same heap a r = ground arith

eqb-false_sym : (a b : ℕ) → eqb a b ≡ false → eqb b a ≡ false
eqb-false_sym a b h = ground arith

module _ (kube : Kube) where
  -- What one round of the loop did.
  redact_list-inv :
      (g : Redactor) (heap : Heap) (x : GatheredResource) (xs : List GatheredResource)
      → (redact_list kube g heap (x ∷ xs)).0 ≡ none
      → ((redact_resource kube g (heap x.resource)).0 ≡ none)
        × (redact_list kube g heap (x ∷ xs)
            ≡ redact_list kube g
                (store heap x.resource (redact_resource kube g (heap x.resource)).1)
                xs)
  unfolding redact_list
  redact_list-inv g heap x xs h = elim (Option-cases (redact_resource kube g (heap x.resource)).0) [
    | inl fine ↦ (fine, rw (fine, redact_list))
    | inr (e, failed) ↦ let h' = rw (failed, redact_list) at h in cc
  ]

  -- An address that is not listed keeps its object.
  redact_list-frame :
      (g : Redactor) (heap : Heap) (xs : List GatheredResource) (a : ℕ)
      → All (λ (y : GatheredResource). eqb a y.resource ≡ false) xs
      → (redact_list kube g heap xs).0 ≡ none
      → (redact_list kube g heap xs).1 a ≡ heap a
  redact_list-frame g heap [] a h e = unfold redact_list in refl
  redact_list-frame g heap (x ∷ xs) a (other, h) e =
      let (fine, step) = redact_list-inv g heap x xs e in
      let heap' = store heap x.resource (redact_resource kube g (heap x.resource)).1 in
      rw step (
        redact_list-frame g heap' xs a h (rw step at e)
        ∙ store_other heap x.resource a (redact_resource kube g (heap x.resource)).1 other)

  -- Every listed object is replaced by what redaction makes of it, without an error.
  pub redact_list_lem :
      (g : Redactor) (heap : Heap) (xs : List GatheredResource) (x : GatheredResource)
      → Distinct xs
      → Memᴰ x xs
      → (redact_list kube g heap xs).0 ≡ none
      → ((redact_resource kube g (heap x.resource)).0 ≡ none)
        × ((redact_list kube g heap xs).1 x.resource ≡ (redact_resource kube g (heap x.resource)).1)
  redact_list_lem g heap [] x d m e = elim m [ ]
  redact_list_lem g heap (y ∷ xs) x (fresh, d) (Memᴰ.head same) e =
      let (fine, step) = redact_list-inv g heap y xs e in
      rw same (
        fine,
        rw step (
            redact_list-frame g _ xs y.resource fresh (rw step at e)
            ∙ store_same heap y.resource (redact_resource kube g (heap y.resource)).1),
      )
  redact_list_lem g heap (y ∷ xs) x (fresh, d) (Memᴰ.tail m) e =
      let (fine, step) = redact_list-inv g heap y xs e in
      let r = (redact_resource kube g (heap y.resource)).1 in
      let heap' = store heap y.resource r in
      let apart =
        All-mem (λ (z : GatheredResource). eqb y.resource z.resource ≡ false) xs x fresh m in
      let unchanged : heap' x.resource ≡ heap x.resource =
        store_other heap y.resource x.resource r (eqb-false_sym y.resource x.resource apart) in
      let (fine', stored) = redact_list_lem g heap' xs x d m (rw step at e) in
      (
        ap (λ (z : Resource). (redact_resource kube g z).0) (sym unchanged) ∙ fine',
        ap (λ (z : Error × Heap). z.1 x.resource) step
            ∙ stored
            ∙ ap (λ (z : Resource). (redact_resource kube g z).1) unchanged,
      )

  module _ (cache : ExpiringCache GatheredResource) where
    -- After a successful `Fetch` of different objects, nothing is found in a returned unstructured
    -- object that is a Secret and no Route at a path outside `metadata` that parts from every field of
    -- the allow-list.
    pub fetch-hides :
        (g : DataGatherer) (heap : Heap) (now : ℕ) (c : cache.Cache) (items : List GatheredResource)
        (x : GatheredResource) (o : Fields) (gvks : List GroupVersionKind) (k : String)
        (q : FieldPath)
        → (fetch kube cache g heap now c).0.0 ≡ ok items
        → Distinct items
        → Memᴰ x items
        → heap x.resource ≡ unstructured o
        → kube.object_kinds (unstructured o) ≡ ok gvks
        → any is_secret gvks ≡ true
        → any is_route gvks ≡ false
        → k == "metadata" ≡ false
        → all_apart (secret_fields g.redactor) (k ∷ q) ≡ true
        → (o' : Fields) × ((fetch kube cache g heap now c).0.1 x.resource ≡ unstructured o')
          × (kube.fields.nested_field o' (k ∷ q) ≡ ok none)
    fetch-hides g heap now c items x o gvks k q h d m at_x kinds secret route outside apart =
        let (same, left) = fetch-inv kube cache g heap now c items h in
        let (found, collected, kept, done, left') = fetch_items-inv kube g heap _ items same in
        let (fine, stored) = redact_list_lem g.redactor heap items x d m done in
        let safe : (redact_unstructured kube g.redactor o).0 ≡ none =
          sym (
            ap (λ (z : Resource). (redact_resource kube g.redactor z).0) at_x
            ∙ unfold redact_resource in refl)
          ∙ fine in
        (
          (redact_unstructured kube g.redactor o).1,
          ap (λ (z : Heap). z x.resource) (left ∙ left')
              ∙ stored
              ∙ ap (λ (z : Resource). (redact_resource kube g.redactor z).1) at_x
              ∙ unfold redact_resource in refl,
          redact_unstructured-hides kube g.redactor gvks o k q kinds secret route outside apart
              safe,
        )
