-- ===== src/K8sDynamic/ExpiringCache.antt =====
-- The cache of github.com/pmylund/go-cache, as an interface with its documented behaviour: an entry is
-- there until its lifetime is over, and `Items` lists the entries that are there.
use mathlib.Core.List.{Memᴰ}
use jetstack_secure.Prelude.{
  ℕ, ◌+◌, ◌≤◌, String, ◌≡◌, ◌↔◌, Option, none, some, List, ◌==◌, leb, if◌then◌else◌,
}

pub record ExpiringCache (V : Type 0) : Type 1 where
  pub Cache : Type 0
  -- The default expiration of `cache.New`.
  pub lifetime : ℕ
  pub new : Cache
  pub get : ℕ → Cache → String → Option V
  pub set : ℕ → Cache → String → V → Cache
  pub items : ℕ → Cache → List (String × V)
  pub delete_expired : ℕ → Cache → Cache
  pub get-new : (t : ℕ) (k : String) → get t new k ≡ none
  pub get-set :
      (s t : ℕ) (c : Cache) (k j : String) (v : V)
      → s ≤ t
      → get t (set s c k v) j
        ≡ (if k == j then (if leb t (s + lifetime) then some v else none) else get t c j)
  pub items_iff :
      (t : ℕ) (c : Cache) (k : String) (v : V) → Memᴰ (k, v) (items t c) ↔ (get t c k ≡ some v)
  pub get-delete_expired :
      (s t : ℕ) (c : Cache) (k : String) → s ≤ t → get t (delete_expired s c) k ≡ get t c k
