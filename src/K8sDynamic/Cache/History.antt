-- ===== src/K8sDynamic/Cache/History.antt =====
-- The cache as a function of the informer's events.
use jetstack_secure.Prelude.{
  ℕ, ◌+◌, ◌≤◌, String, ◌≡◌, ◌∙◌, Option, none, some, List, [], ◌∷◌, arith, ◌==◌, leb, if◌then◌else◌,
  Option-cases, Bool-cases, inl, inr,
}
use jetstack_secure.K8sDynamic.Resources.{Kube}
use jetstack_secure.K8sDynamic.ExpiringCache.{ExpiringCache}
use jetstack_secure.K8sDynamic.Cache.{
  Heap, GatheredResource, uid_of, update_cache_gathered_resource, on_add, on_update, on_delete,
}

-- The calls of the informer's handlers.
pub data Event : Type 0 where
  add : ℕ → Event
  update : ℕ → ℕ → Event
  delete : ℕ → Event

-- An event, with the instant and the heap at which it is handled.
pub record Occurrence : Type 0 where
  pub time : ℕ
  pub heap : Heap
  pub event : Event

-- The object whose UID is the key.
abbrev pub keyed_by : Event → ℕ
keyed_by (add obj) = obj
keyed_by (update old_obj new_obj) = old_obj
keyed_by (delete obj) = obj

-- What an event leaves in the cache.
abbrev pub recorded : ℕ → Event → GatheredResource
recorded t (add obj) = record { resource = obj; deleted_at = 0 }
recorded t (update old_obj new_obj) = record { resource = new_obj; deleted_at = 0 }
recorded t (delete obj) = record { resource = obj; deleted_at = t }

module _ (kube : Kube) (cache : ExpiringCache GatheredResource) where
  open cache use {Cache, get, set, get-set, get-new, lifetime}

  unfoldable pub handle : Heap → ℕ → Event → Cache → Cache
  unfolding on_add on_update on_delete
  handle heap now (add obj) c = on_add kube cache heap now obj c
  handle heap now (update old_obj new_obj) c = on_update kube cache heap now old_obj new_obj c
  handle heap now (delete obj) c = on_delete kube cache heap now obj c

  unfoldable pub replay : Cache → List Occurrence → Cache
  unfolding handle
  replay c [] = c
  replay c (o ∷ os) = replay (handle o.heap o.time o.event c) os

  -- The instant and the record of the last event on a key, once an event is handled.
  abbrev pub next_record :
      String → Occurrence → Option (ℕ × GatheredResource) → Option (ℕ × GatheredResource)
  next_record key o last = elim (uid_of kube (o.heap (keyed_by o.event))) [
    | none ↦ last
    | some uid ↦ (if uid == key then some (o.time, recorded o.time o.event) else last)
  ]

  abbrev pub last_record :
      String → Option (ℕ × GatheredResource) → List Occurrence → Option (ℕ × GatheredResource)
  last_record key last [] = last
  last_record key last (o ∷ os) = last_record key (next_record key o last) os

  -- A record is there until its lifetime is over.
  abbrev pub in_time : ℕ → Option (ℕ × GatheredResource) → Option GatheredResource
  in_time t none = none
  in_time t (some (s, g)) = if leb t (s + lifetime) then some g else none

  -- No event comes after the instant.
  abbrev pub NotAfter : ℕ → List Occurrence → Type 0
  NotAfter t [] = Unit
  NotAfter t (o ∷ os) = (o.time ≤ t) × NotAfter t os

  -- What the cache already knows of the key is never kept: whatever the cache holds, the record has the
  -- given object and no deletion time.
  pub update_cache_gathered_resource_lem :
      (now : ℕ) (key : String) (resource : ℕ) (c : Cache)
      → update_cache_gathered_resource kube cache now key resource c
        ≡ record { resource = resource; deleted_at = 0 }
  unfolding update_cache_gathered_resource
  update_cache_gathered_resource_lem now key resource c = elim (Option-cases (get now c key)) [
    | inl e ↦ rw (e, update_cache_gathered_resource)
    | inr (o, e) ↦ rw (e, update_cache_gathered_resource) (ground arith)
  ]

  -- One event sets the record of its key, and leaves the others.
  get-handle :
      (heap : Heap) (now t : ℕ) (event : Event) (c : Cache) (key : String)
      → now ≤ t
      → get t (handle heap now event c) key ≡ elim (uid_of kube (heap (keyed_by event))) [
        | none ↦ get t c key
        | some uid ↦
            (if uid == key then in_time t (some (now, recorded now event)) else get t c key)
      ]
  unfolding handle on_add on_update on_delete
  get-handle heap now t (add obj) c key h = elim (Option-cases (uid_of kube (heap obj))) [
    | inl e ↦ rw (e, on_add)
    | inr (uid, e) ↦ rw (e, on_add) (get-set now t c uid key _ h)
  ]
  get-handle heap now t (update old_obj new_obj) c key h =
      elim (Option-cases (uid_of kube (heap old_obj))) [
        | inl e ↦ rw (e, on_update)
        | inr (uid, e) ↦
            rw (e, on_update)
              (rw (update_cache_gathered_resource_lem now uid new_obj c)
                (get-set now t c uid key _ h))
      ]
  get-handle heap now t (delete obj) c key h = elim (Option-cases (uid_of kube (heap obj))) [
    | inl e ↦ rw (e, on_delete)
    | inr (uid, e) ↦
        rw (e, on_delete)
          (rw (update_cache_gathered_resource_lem now uid obj c) (get-set now t c uid key _ h))
  ]

  in_time-next :
      (t : ℕ) (key : String) (u : Option String) (now : ℕ) (g : GatheredResource)
      (last : Option (ℕ × GatheredResource)) (old : Option GatheredResource)
      → old ≡ in_time t last
      → elim u [ none ↦ old | some uid ↦ (if uid == key then in_time t (some (now, g)) else old) ]
        ≡ in_time t
            (elim u [ none ↦ last | some uid ↦ (if uid == key then some (now, g) else last) ])
  in_time-next t key none now g last old e = e
  in_time-next t key (some uid) now g last old e = elim (Bool-cases (uid == key)) [
    | inl same ↦ rw same
    | inr other ↦ rw other e
  ]

  get-replay :
      (t : ℕ) (key : String) (last : Option (ℕ × GatheredResource)) (c : Cache)
      (os : List Occurrence)
      → NotAfter t os
      → get t c key ≡ in_time t last
      → get t (replay c os) key ≡ in_time t (last_record key last os)
  unfolding replay
  get-replay t key last c [] h e = e
  get-replay t key last c (o ∷ os) (now, h) e =
      get-replay t key (next_record key o last) (handle o.heap o.time o.event c) os h (
        get-handle o.heap o.time t o.event c key now
        ∙ in_time-next t key (uid_of kube (o.heap (keyed_by o.event))) o.time
            (recorded o.time o.event) last (get t c key) e)

  -- From the new cache, whatever the events up to an instant, a key is found at that instant exactly
  -- as its last event recorded it, and no longer than the lifetime after that event.
  pub get-replay_new :
      (t : ℕ) (key : String) (os : List Occurrence)
      → NotAfter t os
      → get t (replay cache.new os) key ≡ in_time t (last_record key none os)
  get-replay_new t key os h = get-replay t key none cache.new os h (get-new t key)
