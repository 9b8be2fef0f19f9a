-- ===== src/K8sDynamic/Fetch.antt =====
-- pkg/datagatherer/k8sdynamic/dynamic.go: `Fetch`, from the cache to the redacted list. Redaction
-- writes to the objects themselves, which the cache and the informer share, so the heap is part of
-- the result.
pub mod Laws
pub mod Hiding
use jetstack_secure.Prelude.{
  ℕ, String, Bool, true, false, not, ◌&&◌, ◌||◌, Option, none, some, List, [], ◌∷◌, ◌==◌, eqb,
  if◌then◌else◌,
}
use jetstack_secure.Prelude.Results.{Result, ok, err, ◌>>=◌, or_error}
use jetstack_secure.Prelude.Lists.{filter, contains, is_empty}
use jetstack_secure.K8sDynamic.Resources.{Resource, Kube, GroupVersionResource}
use jetstack_secure.K8sDynamic.Redaction.{
  Error, Redactor, resource_matches_exclusion_keys, redact_resource,
}
use jetstack_secure.K8sDynamic.ExpiringCache.{ExpiringCache}
use jetstack_secure.K8sDynamic.Cache.{Heap, GatheredResource, namespace_of}

-- The fields of `DataGathererDynamic` that `Fetch` reads; the cache is passed beside it.
pub record DataGatherer : Type 0 where
  pub group_version_resource : GroupVersionResource
  pub namespaces : List String
  pub redactor : Redactor

-- `*p = r`.
unfoldable pub store : Heap → ℕ → Resource → Heap
store heap a r b = if eqb a b then r else heap b

-- A list of namespaces that is not empty: the first one and the rest.
abbrev pub Namespaces : Type 0
Namespaces = String × List String

-- No namespaces stand for all of them, which is the empty name.
unfoldable pub fetch_namespaces : List String → Namespaces
fetch_namespaces [] = ("", [])
fetch_namespaces (ns ∷ rest) = (ns, rest)

unfoldable pub is_included_namespace : String → Namespaces → Bool
is_included_namespace namespace (first, rest) =
    if first == "" then true else contains (first ∷ rest) namespace

-- The items, unless redaction failed.
unfoldable pub finish :
    Error × Heap → List GatheredResource → Result String (List GatheredResource) × Heap
finish (none, heap) items = (ok items, heap)
finish (some e, heap) items = (err e, heap)

module _ (kube : Kube) where
  -- The loop of `Fetch` over the items of the cache.
  unfoldable pub collect :
      Heap → Namespaces → List (String × GatheredResource) → Result String (List GatheredResource)
  unfolding is_included_namespace namespace_of
  collect heap namespaces [] = ok []
  collect heap namespaces ((key, g) ∷ items) = do
    namespace ← or_error (namespace_of kube (heap g.resource)) "failed to parse cached resource"
    rest ← collect heap namespaces items
    ok (if is_included_namespace namespace namespaces then g ∷ rest else rest)

  unfoldable pub exclude_resources : Redactor → Heap → List GatheredResource → List GatheredResource
  exclude_resources g heap list =
      if is_empty g.exclude_annot_keys && is_empty g.exclude_label_keys
      then list
      else filter (λ item. not (resource_matches_exclusion_keys kube g (heap item.resource))) list

  unfoldable pub redact_list : Redactor → Heap → List GatheredResource → Error × Heap
  unfolding store
  redact_list g heap [] = (none, heap)
  redact_list g heap (item ∷ items) =
      let (e, r) = redact_resource kube g (heap item.resource) in
      let heap' = store heap item.resource r in
      let rest = redact_list g heap' items in
      elim e [ none ↦ rest | some message ↦ (some message, heap') ]

  -- What is fetched from the items of the cache.
  unfoldable pub fetch_items :
      DataGatherer
      → Heap
      → List (String × GatheredResource)
      → Result String (List GatheredResource) × Heap
  unfolding collect exclude_resources redact_list fetch_namespaces finish
  fetch_items g heap cached = elim (collect heap (fetch_namespaces g.namespaces) cached) [
    | err e ↦ (err e, heap)
    | ok found ↦
        let items = exclude_resources g.redactor heap found in
        finish (redact_list g.redactor heap items) items
  ]

  module _ (cache : ExpiringCache GatheredResource) where
    -- The items are the `Items` of the result; the cache loses what has expired.
    unfoldable pub fetch :
        DataGatherer
        → Heap
        → ℕ
        → cache.Cache
        → (Result String (List GatheredResource) × Heap) × cache.Cache
    unfolding fetch_items
    fetch g heap now c =
        if kube.gvr_string g.group_version_resource == ""
        then ((err "resource type must be specified", heap), c)
        else (let live = cache.delete_expired now c in
            (fetch_items g heap (cache.items now live), live))
