-- ===== src/K8sDynamic/Cache.antt =====
-- pkg/datagatherer/k8sdynamic/cache.go: the informer's event handlers, over a heap of objects. The
-- informer hands the handlers pointers, and the cache holds them. Within one call of a handler the
-- clock shows one instant. The log of a failed update is left out.
pub mod History
use jetstack_secure.Prelude.{ℕ, String, Bool, not, ◌&&◌, Option, none, some, eqb, if◌then◌else◌}
use jetstack_secure.K8sDynamic.Resources.{Resource, unstructured, typed, foreign, Kube}
use jetstack_secure.K8sDynamic.ExpiringCache.{ExpiringCache}

-- What is stored at each address.
abbrev pub Heap : Type 0
Heap = ℕ → Resource

-- `api.GatheredResource`: the address of the object, and the zero time or when it was deleted.
pub record GatheredResource : Type 0 where
  pub resource : ℕ
  pub deleted_at : ℕ

-- `Time.IsZero`.
unfoldable pub is_zero : ℕ → Bool
is_zero t = eqb t 0

-- The type assertion to `cacheResource`, with its two methods.
unfoldable pub uid_of : Kube → Resource → Option String
uid_of kube (unstructured o) = some (kube.get_uid o)
uid_of kube (typed t) = some t.uid
uid_of kube (foreign s) = none

unfoldable pub namespace_of : Kube → Resource → Option String
namespace_of kube (unstructured o) = some (kube.get_namespace o)
namespace_of kube (typed t) = some t.namespace
namespace_of kube (foreign s) = none

module _ (kube : Kube) (cache : ExpiringCache GatheredResource) where
  open cache use {Cache, get, set}

  unfoldable pub update_cache_gathered_resource : ℕ → String → ℕ → Cache → GatheredResource
  unfolding is_zero
  update_cache_gathered_resource now key resource c =
      let cache_object : GatheredResource = record { resource = resource; deleted_at = 0 } in
      elim (get now c key) [
        | none ↦ cache_object
        | some o ↦
            (if is_zero o.deleted_at && not (is_zero o.deleted_at)
              then record cache_object { deleted_at = o.deleted_at }
              else cache_object)
      ]

  unfoldable pub on_add : Heap → ℕ → ℕ → Cache → Cache
  unfolding uid_of
  on_add heap now obj c = elim (uid_of kube (heap obj)) [
    | none ↦ c
    | some uid ↦ set now c uid (record { resource = obj; deleted_at = 0 })
  ]

  unfoldable pub on_update : Heap → ℕ → ℕ → ℕ → Cache → Cache
  unfolding uid_of update_cache_gathered_resource
  on_update heap now old_obj new_obj c = elim (uid_of kube (heap old_obj)) [
    | none ↦ c
    | some uid ↦ set now c uid (update_cache_gathered_resource now uid new_obj c)
  ]

  unfoldable pub on_delete : Heap → ℕ → ℕ → Cache → Cache
  unfolding uid_of update_cache_gathered_resource
  on_delete heap now obj c = elim (uid_of kube (heap obj)) [
    | none ↦ c
    | some uid ↦
        set now c uid (record (update_cache_gathered_resource now uid obj c) { deleted_at = now })
  ]
