-- ===== src/K8sDynamic/Fetch/Laws.antt =====
-- Which items `Fetch` returns.
use mathlib.Core.List.{Memᴰ}
use jetstack_secure.Prelude.{
  ℕ, String, ◌≡◌, ◌↔◌, refl, sym, ap, ◌∙◌, true, false, not, ◌&&◌, none, some, List, [], ◌∷◌, arith,
  ◌==◌, Bool-cases, inl, inr, if◌then◌else◌,
}
use jetstack_secure.Prelude.Results.{ok, >>=-eq-ok, or_error, or_error_lem, Result-cases}
use jetstack_secure.Prelude.Lists.{
  filter, is_empty, filter-mem, mem-filter, filter-all, is_empty-nil, mem-cons_if, cons_if_here,
  cons_if_there,
}
use native.Mathlib.Nat.{le_refl}
use jetstack_secure.K8sDynamic.Resources.{Resource, unstructured, Kube}
use jetstack_secure.K8sDynamic.Redaction.{
  Error, Redactor, any_key_matches, matches_any, resource_matches_exclusion_keys,
}
use jetstack_secure.K8sDynamic.ExpiringCache.{ExpiringCache}
use jetstack_secure.K8sDynamic.Cache.{Heap, GatheredResource, namespace_of}
use jetstack_secure.K8sDynamic.Fetch.{
  DataGatherer, Namespaces, fetch_namespaces, is_included_namespace, collect, exclude_resources,
  redact_list, finish, fetch_items, fetch,
}

any_key_matches-nil : (keys : List String) → any_key_matches keys [] ≡ false
unfolding any_key_matches matches_any
any_key_matches-nil [] = refl
any_key_matches-nil (k ∷ keys) = any_key_matches-nil keys

module _ (kube : Kube) where
  -- The object is in one of the namespaces.
  pub record InNamespaces (heap : Heap) (namespaces : Namespaces) (g : GatheredResource)
      : Type 0 where
    pub namespace : String
    pub has_namespace : namespace_of kube (heap g.resource) ≡ some namespace
    pub included : is_included_namespace namespace namespaces ≡ true

  -- What one round of the loop did.
  collect-inv :
      (heap : Heap) (namespaces : Namespaces) (key : String) (x : GatheredResource)
      (cached : List (String × GatheredResource)) (found : List GatheredResource)
      → collect kube heap namespaces ((key, x) ∷ cached) ≡ ok found
      → (namespace : String) × (rest : List GatheredResource) × (namespace_of kube (heap x.resource)
          ≡ some namespace)
        × (collect kube heap namespaces cached ≡ ok rest)
        × ((if is_included_namespace namespace namespaces then x ∷ rest else rest) ≡ found)
  unfolding collect
  collect-inv heap namespaces key x cached found h =
      let (namespace, e, h') =
        >>=-eq-ok (or_error (namespace_of kube (heap x.resource)) "failed to parse cached resource")
          _ h in
      let (rest, e', done) = >>=-eq-ok (collect kube heap namespaces cached) _ h' in
      (namespace, rest, or_error_lem _ _ e, e', cc)

  pub collect-mem :
      (heap : Heap) (namespaces : Namespaces) (cached : List (String × GatheredResource))
      (found : List GatheredResource) (g : GatheredResource)
      → collect kube heap namespaces cached ≡ ok found
      → Memᴰ g found
      → (key : String) × Memᴰ (key, g) cached × InNamespaces heap namespaces g
  unfolding collect
  collect-mem heap namespaces [] found g h m = let same : found ≡ [] = cc in elim (rw same at m) [ ]
  collect-mem heap namespaces ((key, x) ∷ cached) found g h m =
      let (namespace, rest, named, more, made) = collect-inv heap namespaces key x cached found h in
      elim (mem-cons_if (is_included_namespace namespace namespaces) x rest g (rw (← made) at m)) [
        | inl (e, included) ↦ (
          key,
          Memᴰ.head (ap (λ (y : GatheredResource). (key, y)) e),
          record { namespace = namespace; has_namespace = rw e named; included = included },
        )
        | inr later ↦
            let (k, m', n) = collect-mem heap namespaces cached rest g more later in
            (k, Memᴰ.tail m', n)
      ]

  pub mem-collect :
      (heap : Heap) (namespaces : Namespaces) (cached : List (String × GatheredResource))
      (found : List GatheredResource) (key : String) (g : GatheredResource)
      → collect kube heap namespaces cached ≡ ok found
      → Memᴰ (key, g) cached
      → InNamespaces heap namespaces g
      → Memᴰ g found
  mem-collect heap namespaces [] found key g h m n = elim m [ ]
  mem-collect heap namespaces ((k, x) ∷ cached) found key g h (Memᴰ.head e) n =
      let (namespace, rest, named, more, made) = collect-inv heap namespaces k x cached found h in
      let same : g ≡ x = ap (λ (p : String × GatheredResource). p.1) e in
      let named' : namespace_of kube (heap g.resource) ≡ some namespace = rw same named in
      let one : n.namespace ≡ namespace = (let n' = n.has_namespace in cc) in
      rw (← made) (cons_if_here _ x rest g same (rw (← one) n.included))
  mem-collect heap namespaces ((k, x) ∷ cached) found key g h (Memᴰ.tail m) n =
      let (namespace, rest, named, more, made) = collect-inv heap namespaces k x cached found h in
      rw (← made)
        (cons_if_there _ x rest g (mem-collect heap namespaces cached rest key g more m n))

  no_patterns :
      (g : Redactor) (r : Resource)
      → g.exclude_annot_keys ≡ []
      → g.exclude_label_keys ≡ []
      → resource_matches_exclusion_keys kube g r ≡ false
  unfolding resource_matches_exclusion_keys
  no_patterns g (unstructured o) a l = ground (
    arith,
    ap (any_key_matches (kube.annotation_keys o)) a,
    ap (any_key_matches (kube.label_keys o)) l,
    any_key_matches-nil (kube.annotation_keys o),
    any_key_matches-nil (kube.label_keys o),
  )
  no_patterns g _ a l = refl

  -- Without patterns nothing matches, so the early return makes no difference.
  exclude_resources-filter :
      (g : Redactor) (heap : Heap) (list : List GatheredResource)
      → exclude_resources kube g heap list
        ≡ filter (λ item. not (resource_matches_exclusion_keys kube g (heap item.resource))) list
  unfolding exclude_resources
  exclude_resources-filter g heap list =
      elim (Bool-cases (is_empty g.exclude_annot_keys && is_empty g.exclude_label_keys)) [
        | inl empty ↦ rw empty (
            sym (
              filter-all _ list (λ item. ap not (
                no_patterns g (heap item.resource)
                  (is_empty-nil g.exclude_annot_keys (ground arith))
                  (is_empty-nil g.exclude_label_keys (ground arith))))))
        | inr some_patterns ↦ rw some_patterns
      ]

  -- What it takes for a cached resource to be fetched.
  pub record IsWanted (g : DataGatherer) (heap : Heap) (x : GatheredResource) : Type 0 where
    pub in_namespaces : InNamespaces heap (fetch_namespaces g.namespaces) x
    pub not_excluded : resource_matches_exclusion_keys kube g.redactor (heap x.resource) ≡ false

  finish-inv :
      (r : Error × Heap) (list items : List GatheredResource)
      → (finish r list).0 ≡ ok items
      → (list ≡ items) × (r.0 ≡ none) × ((finish r list).1 ≡ r.1)
  unfolding finish
  finish-inv (none, heap) list items h = (cc, refl, refl)
  finish-inv (some e, heap) list items h = cc

  -- What a successful `Fetch` did, after the cache was read.
  pub fetch_items-inv :
      (g : DataGatherer) (heap : Heap) (cached : List (String × GatheredResource))
      (items : List GatheredResource)
      → (fetch_items kube g heap cached).0 ≡ ok items
      → (found : List GatheredResource) × (collect kube heap (fetch_namespaces g.namespaces) cached
          ≡ ok found)
        × (exclude_resources kube g.redactor heap found ≡ items)
        × ((redact_list kube g.redactor heap items).0 ≡ none)
        × ((fetch_items kube g heap cached).1 ≡ (redact_list kube g.redactor heap items).1)
  unfolding fetch_items
  fetch_items-inv g heap cached items h =
      elim (Result-cases (collect kube heap (fetch_namespaces g.namespaces) cached)) [
        | inl (found, e) ↦
            let list = exclude_resources kube g.redactor heap found in
            let (same, none_failed, left) =
              finish-inv (redact_list kube g.redactor heap list) list items
                (rw (e, fetch_items) at h) in
            (
              found,
              e,
              same,
              ap (λ (l : List GatheredResource). (redact_list kube g.redactor heap l).0) (sym same)
                  ∙ none_failed,
              rw (e, fetch_items)
                  (left
                    ∙ ap (λ (l : List GatheredResource). (redact_list kube g.redactor heap l).1)
                        same),
            )
        | inr (e, failed) ↦ let h' = rw (failed, fetch_items) at h in cc
      ]

  fetch_items-mem_iff :
      (g : DataGatherer) (heap : Heap) (cached : List (String × GatheredResource))
      (items : List GatheredResource) (x : GatheredResource)
      → (fetch_items kube g heap cached).0 ≡ ok items
      → Memᴰ x items ↔ ((key : String) × Memᴰ (key, x) cached × IsWanted g heap x)
  fetch_items-mem_iff g heap cached items x h =
      let (found, collected, kept, done, left) = fetch_items-inv g heap cached items h in
      let by_filter = sym (exclude_resources-filter g.redactor heap found) ∙ kept in
      (
        λ m.
            let (m', wanted) = filter-mem _ found x (rw (← by_filter) at m) in
            let (key, m'', n) = collect-mem heap _ cached found x collected m' in
            (key, m'', record { in_namespaces = n; not_excluded = ground arith }),
        λ (key, m, w). rw (← by_filter) (
            mem-filter _ found x (mem-collect heap _ cached found key x collected m w.in_namespaces)
              (ap not w.not_excluded)),
      )

  module _ (cache : ExpiringCache GatheredResource) where
    pub fetch-inv :
        (g : DataGatherer) (heap : Heap) (now : ℕ) (c : cache.Cache) (items : List GatheredResource)
        → (fetch kube cache g heap now c).0.0 ≡ ok items
        → ((fetch_items kube g heap (cache.items now (cache.delete_expired now c))).0 ≡ ok items)
          × ((fetch kube cache g heap now c).0.1
              ≡ (fetch_items kube g heap (cache.items now (cache.delete_expired now c))).1)
    unfolding fetch
    fetch-inv g heap now c items h =
        elim (Bool-cases (kube.gvr_string g.group_version_resource == "")) [
          | inl e ↦ let h' = rw (e, fetch) at h in cc
          | inr e ↦ (rw (e, fetch) at h, rw (e, fetch))
        ]

    -- A successful `Fetch` returns exactly the live resources of the cache that are in one of the
    -- namespaces and match no exclusion pattern.
    pub fetch-mem_iff :
        (g : DataGatherer) (heap : Heap) (now : ℕ) (c : cache.Cache) (items : List GatheredResource)
        (x : GatheredResource)
        → (fetch kube cache g heap now c).0.0 ≡ ok items
        → Memᴰ x items ↔ ((key : String) × (cache.get now c key ≡ some x) × IsWanted g heap x)
    fetch-mem_iff g heap now c items x h =
        let live = cache.delete_expired now c in
        let (same, left) = fetch-inv g heap now c items h in
        let (down, up) = fetch_items-mem_iff g heap (cache.items now live) items x same in
        let kept = λ (key : String). cache.get-delete_expired now now c key (le_refl now) in
        (
          λ m.
              let (key, m', w) = down m in
              (key, sym (kept key) ∙ (cache.items_iff now live key x).0 m', w),
          λ (key, found, w). up (key, (cache.items_iff now live key x).1 (kept key ∙ found), w),
        )
