-- ===== src/Agent/Gather/Collected.antt =====
-- What a round collects from the gatherers, and when strict mode stops it.
use mathlib.Core.List.{Memᴰ}
use jetstack_secure.Prelude.{
  String, ◌≡◌, ◌↔◌, refl, ap, sym, ◌∙◌, subst, Bool, true, false, not, ◌&&◌, List, [], ◌∷◌, ◌⊎◌,
  inl, inr, Bool-cases,
}
use jetstack_secure.Prelude.Results.{Result, ok, err, is_ok, Result-cases}
use jetstack_secure.Prelude.Int.{ℤ}
use jetstack_secure.Prelude.Lists.{is_empty, all}
use jetstack_secure.Api.{DataReading}
use jetstack_secure.Agent.Config.{CombinedConfig}
use jetstack_secure.Agent.Gather.{Fetched, reading_of, gather_loop, gather_data, collect_one}

and_false : (b : Bool) → b && false ≡ false
and_false true = refl
and_false false = refl

module _ {D : Type 0} (config : CombinedConfig) where
  -- The reading of a gatherer that succeeded.
  pub record IsGathered (fs : List (Fetched D)) (r : DataReading D) : Type 0 where
    pub source : Fetched D
    pub gathered : D
    pub count : ℤ
    pub is_source : Memᴰ source fs
    pub is_fetched : source.result ≡ ok (gathered, count)
    pub is_reading : r ≡ reading_of config source gathered

  -- Some gatherer failed.
  pub record HasFailed (fs : List (Fetched D)) : Type 0 where
    pub failed : Fetched D
    pub failure : String
    pub is_member : Memᴰ failed fs
    pub is_failed : failed.result ≡ err failure

  IsGathered-there :
      (f : Fetched D) (fs : List (Fetched D)) (r : DataReading D)
      → IsGathered fs r
      → IsGathered (f ∷ fs) r
  IsGathered-there f fs r g = record {
    source = g.source;
    gathered = g.gathered;
    count = g.count;
    is_source = Memᴰ.tail g.is_source;
    is_fetched = g.is_fetched;
    is_reading = g.is_reading;
  }

  HasFailed-there : (f : Fetched D) (fs : List (Fetched D)) → HasFailed fs → HasFailed (f ∷ fs)
  HasFailed-there f fs h = record {
    failed = h.failed;
    failure = h.failure;
    is_member = Memᴰ.tail h.is_member;
    is_failed = h.is_failed;
  }

  collect_one-mem :
      (f : Fetched D) (found : Result String (D × ℤ))
      (rest : List (DataReading D) × List (String × String)) (r : DataReading D)
      → Memᴰ r (collect_one config f found rest).0
      → ((d : D) × (n : ℤ) × (found ≡ ok (d, n)) × (r ≡ reading_of config f d)) ⊎ Memᴰ r rest.0
  unfolding collect_one
  collect_one-mem f (err e) (rs, es) r m = inr m
  collect_one-mem f (ok (d, n)) (rs, es) r (Memᴰ.head e) = inl (d, n, refl, e)
  collect_one-mem f (ok (d, n)) (rs, es) r (Memᴰ.tail m) = inr m

  mem-collect_one :
      (f : Fetched D) (found : Result String (D × ℤ))
      (rest : List (DataReading D) × List (String × String)) (r : DataReading D)
      → Memᴰ r rest.0
      → Memᴰ r (collect_one config f found rest).0
  unfolding collect_one
  mem-collect_one f (err e) (rs, es) r m = m
  mem-collect_one f (ok (d, n)) (rs, es) r m = Memᴰ.tail m

  collect_one_here :
      (f : Fetched D) (found : Result String (D × ℤ))
      (rest : List (DataReading D) × List (String × String)) (r : DataReading D) (d : D) (n : ℤ)
      → found ≡ ok (d, n)
      → r ≡ reading_of config f d
      → Memᴰ r (collect_one config f found rest).0
  unfolding collect_one
  collect_one_here f (err e) (rs, es) r d n h same = cc
  collect_one_here f (ok (d', n')) (rs, es) r d n h same =
      let same_data : d' ≡ d = cc in Memᴰ.head (same ∙ ap (reading_of config f) (sym same_data))

  gather_loop-IsGathered :
      (fs : List (Fetched D)) (r : DataReading D)
      → Memᴰ r (gather_loop config fs).0
      → IsGathered fs r
  unfolding gather_loop
  gather_loop-IsGathered [] r m = elim m [ ]
  gather_loop-IsGathered (f ∷ fs) r m =
      elim (collect_one-mem f f.result (gather_loop config fs) r m) [
        | inl (d, n, fetched, e) ↦ record {
          source = f;
          gathered = d;
          count = n;
          is_source = Memᴰ.head refl;
          is_fetched = fetched;
          is_reading = e;
        }
        | inr later ↦ IsGathered-there f fs r (gather_loop-IsGathered fs r later)
      ]

  gather_loop-mem :
      (fs : List (Fetched D)) (f : Fetched D) (r : DataReading D) (d : D) (n : ℤ)
      → Memᴰ f fs
      → f.result ≡ ok (d, n)
      → r ≡ reading_of config f d
      → Memᴰ r (gather_loop config fs).0
  unfolding gather_loop
  gather_loop-mem [] f r d n m h same = elim m [ ]
  gather_loop-mem (g ∷ fs) f r d n (Memᴰ.head e) h same =
      collect_one_here g g.result (gather_loop config fs) r d n
        (ap (λ (x : Fetched D). x.result) (sym e) ∙ h)
        (same ∙ ap (λ (x : Fetched D). reading_of config x d) e)
  gather_loop-mem (g ∷ fs) f r d n (Memᴰ.tail m) h same =
      mem-collect_one g g.result (gather_loop config fs) r (gather_loop-mem fs f r d n m h same)

  -- No errors are left exactly where no gatherer failed.
  collect_one-errors :
      (f : Fetched D) (found : Result String (D × ℤ))
      (rest : List (DataReading D) × List (String × String))
      → is_empty (collect_one config f found rest).1 ≡ is_ok found && is_empty rest.1
  unfolding collect_one
  collect_one-errors f (err e) (rs, es) = refl
  collect_one-errors f (ok (d, n)) (rs, es) = refl

  gather_loop-errors :
      (fs : List (Fetched D))
      → is_empty (gather_loop config fs).1 ≡ all (λ (f : Fetched D). is_ok f.result) fs
  unfolding gather_loop
  gather_loop-errors [] = refl
  gather_loop-errors (f ∷ fs) =
      collect_one-errors f f.result (gather_loop config fs)
      ∙ ap (λ b. is_ok f.result && b) (gather_loop-errors fs)

  all_ok-HasFailed :
      (fs : List (Fetched D)) → all (λ (f : Fetched D). is_ok f.result) fs ≡ false → HasFailed fs
  all_ok-HasFailed [] h = cc
  all_ok-HasFailed (f ∷ fs) h = elim (Result-cases f.result) [
    | inr (e, failed) ↦ record {
      failed = f;
      failure = e;
      is_member = Memᴰ.head refl;
      is_failed = failed;
    }
    | inl (found, fetched) ↦ HasFailed-there f fs (all_ok-HasFailed fs (rw fetched at h))
  ]

  failed-all_ok :
      (fs : List (Fetched D)) (f : Fetched D) (e : String)
      → Memᴰ f fs
      → f.result ≡ err e
      → all (λ (x : Fetched D). is_ok x.result) fs ≡ false
  failed-all_ok [] f e m failed = elim m [ ]
  failed-all_ok (g ∷ gs) f e (Memᴰ.head same) failed =
      rw (ap (λ (x : Fetched D). x.result) (sym same) ∙ failed) refl
  failed-all_ok (g ∷ gs) f e (Memᴰ.tail m) failed =
      rw (failed-all_ok gs f e m failed) (and_false (is_ok g.result))

  HasFailed-errors :
      (fs : List (Fetched D)) → HasFailed fs → is_empty (gather_loop config fs).1 ≡ false
  HasFailed-errors fs h =
      gather_loop-errors fs ∙ failed-all_ok fs h.failed h.failure h.is_member h.is_failed

  errors-HasFailed :
      (fs : List (Fetched D)) → is_empty (gather_loop config fs).1 ≡ false → HasFailed fs
  errors-HasFailed fs h = all_ok-HasFailed fs (sym (gather_loop-errors fs) ∙ h)

  -- A round gathers nothing exactly where strict mode is on and some gatherer failed.
  pub gather_data-err_iff :
      (fs : List (Fetched D))
      → (is_ok (gather_data config fs) ≡ false) ↔ ((config.strict_mode ≡ true) × HasFailed fs)
  unfolding gather_data
  gather_data-err_iff fs = (
    (λ h. elim (Bool-cases config.strict_mode) [
      | inr lax ↦ let h' = rw lax at h in cc
      | inl strict ↦ elim (Bool-cases (is_empty (gather_loop config fs).1)) [
        | inl none_failed ↦ let h' = rw (strict, none_failed) at h in cc
        | inr some_failed ↦ (strict, errors-HasFailed fs some_failed)
      ]
    ]),
    (λ (strict, failed). rw (strict, HasFailed-errors fs failed) refl),
  )

  -- The readings that a round gathers are exactly those of the gatherers that succeeded, and in strict
  -- mode no gatherer failed.
  pub gather_data-mem_iff :
      (fs : List (Fetched D)) (rs : List (DataReading D)) (r : DataReading D)
      → gather_data config fs ≡ ok rs
      → (Memᴰ r rs ↔ IsGathered fs r) × (config.strict_mode ≡ true → ¬ HasFailed fs)
  unfolding gather_data
  gather_data-mem_iff fs rs r h =
      elim (Bool-cases (config.strict_mode && not (is_empty (gather_loop config fs).1))) [
        | inl stops ↦ let h' = rw stops at h in cc
        | inr goes ↦
            let same : (gather_loop config fs).0 ≡ rs = let h' = rw goes at h in cc in
            (
              (
                (λ m. gather_loop-IsGathered fs r (subst (Memᴰ r) (sym same) m)),
                (λ g. subst (Memᴰ r) same (
                    gather_loop-mem fs g.source r g.gathered g.count g.is_source g.is_fetched
                      g.is_reading)),
              ),
              (λ strict failed. let goes' = rw (strict, HasFailed-errors fs failed) at goes in cc),
            )
      ]
