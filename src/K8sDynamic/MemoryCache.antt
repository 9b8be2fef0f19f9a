-- ===== src/K8sDynamic/MemoryCache.antt =====
-- An implementation of the interface of the cache: a list of entries, the latest first, each with the
-- instant at which its lifetime is over. Entries that have expired stay in the list, unseen.
use mathlib.Core.List.{Memᴰ}
use jetstack_secure.Prelude.{
  ℕ, ◌+◌, String, ◌≡◌, refl, sym, ap, false, not, Option, none, some, List, [], ◌∷◌, arith, ◌==◌,
  eq_iff, leb, Bool-cases, inl, inr, if◌then◌else◌,
}
use jetstack_secure.Prelude.Lists.{
  filter, filter-mem, mem-filter, mem-cons_if, cons_if_here, cons_if_there,
}
use jetstack_secure.K8sDynamic.ExpiringCache.{ExpiringCache}

module _ (V : Type 0) where
  abbrev pub Entries : Type 0
  Entries = List (String × (ℕ × V))

  unfoldable pub get_entry : ℕ → Entries → String → Option V
  get_entry t [] k = none
  get_entry t ((j, (end, v)) ∷ c) k =
      if j == k then (if leb t end then some v else none) else get_entry t c k

  unfoldable pub live_entries : ℕ → Entries → List (String × V)
  live_entries t [] = []
  live_entries t ((j, (end, v)) ∷ c) =
      let rest = filter (λ (e : String × V). not (e.0 == j)) (live_entries t c) in
      if leb t end then (j, v) ∷ rest else rest

  pub live_entries-get :
      (t : ℕ) (c : Entries) (k : String) (v : V)
      → Memᴰ (k, v) (live_entries t c)
      → get_entry t c k ≡ some v
  unfolding live_entries get_entry
  live_entries-get t [] k v m = elim m [ ]
  live_entries-get t ((j, (end, w)) ∷ c) k v m =
      elim (mem-cons_if (leb t end) (j, w)
        (filter (λ (e : String × V). not (e.0 == j)) (live_entries t c)) (k, v) m) [
          | inl (e, live) ↦
              let same = (eq_iff j k).1 (sym (ap (λ (x : String × V). x.0) e)) in
              rw (same, live) (ap (λ (x : String × V). some x.1) (sym e))
          | inr later ↦
              let (m', other) = filter-mem _ (live_entries t c) (k, v) later in
              let apart : j == k ≡ false = ground (arith, eq_iff k j, eq_iff j k) in
              rw apart (live_entries-get t c k v m')
        ]

  pub get-live_entries :
      (t : ℕ) (c : Entries) (k : String) (v : V)
      → get_entry t c k ≡ some v
      → Memᴰ (k, v) (live_entries t c)
  unfolding live_entries get_entry
  get-live_entries t [] k v h = cc
  get-live_entries t ((j, (end, w)) ∷ c) k v h = elim (Bool-cases (j == k)) [
    | inl same ↦ elim (Bool-cases (leb t end)) [
      | inl live ↦
          let h' = rw (same, live, get_entry) at h in
          let found : v ≡ w = cc in
          cons_if_here (leb t end) (j, w)
            (filter (λ (e : String × V). not (e.0 == j)) (live_entries t c)) (k, v)
            (λ i. (sym ((eq_iff j k).0 same) i, found i)) live
      | inr dead ↦ let h' = rw (same, dead, get_entry) at h in cc
    ]
    | inr other ↦
        let h' = rw (other, get_entry) at h in
        let apart : k == j ≡ false = ground (arith, eq_iff k j, eq_iff j k) in
        cons_if_there (leb t end) (j, w) _ (k, v)
          (mem-filter _ (live_entries t c) (k, v) (get-live_entries t c k v h') (rw apart refl))
  ]

  unfoldable pub memory_cache : ℕ → ExpiringCache V
  unfolding get_entry live_entries
  memory_cache lifetime = record {
    Cache = Entries;
    lifetime = lifetime;
    new = [];
    get = get_entry;
    set = λ s c k v. (k, (s + lifetime, v)) ∷ c;
    items = live_entries;
    delete_expired = λ s c. c;
    get-new = λ t k. refl;
    get-set = λ s t c k j v h. refl;
    items_iff = λ t c k v. (live_entries-get t c k v, get-live_entries t c k v);
    get-delete_expired = λ s t c k h. refl;
  }
