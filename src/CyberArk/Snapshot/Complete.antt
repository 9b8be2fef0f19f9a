-- ===== src/CyberArk/Snapshot/Complete.antt =====
-- The gatherers of a converted snapshot.
use mathlib.Core.List.{Memᴰ}
use jetstack_secure.Prelude.{
  String, ◌≡◌, refl, sym, ap, ◌∙◌, not, some, List, [], ◌∷◌, ◌++◌, ◌==◌, eq_iff, Bool-cases,
  Option-cases, inl, inr, ◌⊎◌, if◌then◌else◌,
}
use jetstack_secure.Prelude.Results.{Result, ok, err, >>=-eq-ok}
use jetstack_secure.Prelude.Lists.{filter, mem-filter, is_empty, is_empty-nil, contains}
use jetstack_secure.CyberArk.Snapshot.{
  Snapshot, SnapshotError, DataReading, Extractor, Extractors, Progress, find_extractor, names,
  convert_reading, convert_loop, conclude, convert_data_readings, in_extraction,
}

-- The extractors of the readings, run in their order.
pub data Extracts (fs : Extractors) : List DataReading → Snapshot → Snapshot → Type 0 where
  done : {s : Snapshot} → Extracts fs [] s s
  step :
      {r : DataReading} {rs : List DataReading} {s t u : Snapshot} (f : Extractor)
      → find_extractor r.data_gatherer fs ≡ some f
      → f (some r) s ≡ ok t
      → Extracts fs rs t u
      → Extracts fs (r ∷ rs) s u

-- Some reading is of the gatherer.
abbrev pub IsRead : List DataReading → String → Type 0
IsRead rs k = (r : DataReading) × Memᴰ r rs × (r.data_gatherer ≡ k)

in_extraction-inv :
    (name : String) (m : Result SnapshotError Snapshot) (s : Snapshot)
    → in_extraction name m ≡ ok s
    → m ≡ ok s
unfolding in_extraction
in_extraction-inv name (ok t) s h = cc
in_extraction-inv name (err e) s h = cc

insert_name-not_nil :
    (xs : List String) (k : String) → (if contains xs k then xs else xs ++ k ∷ []) ≡ [] → ⊥
insert_name-not_nil [] k h = cc
insert_name-not_nil (x ∷ xs) k h = elim (Bool-cases (contains (x ∷ xs) k)) [
  | inl t ↦ let h' : x ∷ xs ≡ [] = rw t at h in cc
  | inr f ↦ let h' : x ∷ (xs ++ k ∷ []) ≡ [] = rw f at h in cc
]

-- One reading of a known gatherer: its extractor ran, and its name is no longer missing.
record Read (fs : Extractors) (r : DataReading) (p q : Progress) : Type 0 where
  extractor : Extractor
  is_found : find_extractor r.data_gatherer fs ≡ some extractor
  has_run : extractor (some r) p.target ≡ ok q.target
  is_missing : q.missing ≡ filter (λ name. not (name == r.data_gatherer)) p.missing
  is_unhandled : q.unhandled ≡ p.unhandled

convert_reading-inv :
    (fs : Extractors) (r : DataReading) (p q : Progress)
    → convert_reading fs r p ≡ ok q
    → q.unhandled ≡ []
    → Read fs r p q
unfolding convert_reading
convert_reading-inv fs r p q h clean = elim (Option-cases (find_extractor r.data_gatherer fs)) [
  | inl e ↦
      let h' = rw (e, convert_reading) at h in
      absurd (
        insert_name-not_nil p.unhandled r.data_gatherer (
          ap (λ (z : Result SnapshotError Progress). elim z [ ok y ↦ y.unhandled | err _ ↦ [] ]) h'
          ∙ clean))
  | inr (f, e) ↦
      let h' = rw (e, convert_reading) at h in
      let (s, ran, made) = >>=-eq-ok (in_extraction r.data_gatherer (f (some r) p.target)) _ h' in
      let ran' = in_extraction-inv _ _ _ ran in
      let same : record p {
        missing = filter (λ name. not (name == r.data_gatherer)) p.missing;
        target = s;
      }
          ≡ q =
        cc in
      rw (← same) (record {
        extractor = f;
        is_found = e;
        has_run = ran';
        is_missing = refl;
        is_unhandled = refl;
      })
]

-- A loop that leaves no name unhandled ran every extractor, and met every name that it took out.
convert_loop-inv :
    (fs : Extractors) (rs : List DataReading) (p q : Progress)
    → convert_loop fs rs p ≡ ok q
    → q.unhandled ≡ []
    → (p.unhandled ≡ [])
      × Extracts fs rs p.target q.target
      × ((k : String) → Memᴰ k p.missing → IsRead rs k ⊎ Memᴰ k q.missing)
unfolding convert_loop
convert_loop-inv fs [] p q h clean =
    let same : p ≡ q = cc in rw (← same) (rw same clean, Extracts.done, λ k m. inr m)
convert_loop-inv fs (r ∷ rs) p q h clean =
    let (mid, first, rest) = >>=-eq-ok (convert_reading fs r p) (convert_loop fs rs) h in
    let (clean', extracts, met) = convert_loop-inv fs rs mid q rest clean in
    let read = convert_reading-inv fs r p mid first clean' in
    (
      sym read.is_unhandled ∙ clean',
      Extracts.step read.extractor read.is_found read.has_run extracts,
      λ k m. elim (Bool-cases (k == r.data_gatherer)) [
        | inl t ↦ inl (r, Memᴰ.head refl, sym ((eq_iff k r.data_gatherer).0 t))
        | inr f ↦
            let kept : Memᴰ k mid.missing =
              rw read.is_missing (mem-filter _ p.missing k m (rw f refl)) in
            elim (met k kept) [ inl (r', m', e) ↦ inl (r', Memᴰ.tail m', e) | inr left ↦ inr left ]
      ],
    )

conclude-inv :
    (q : Progress) (s : Snapshot)
    → conclude q ≡ ok s
    → (q.missing ≡ []) × (q.unhandled ≡ []) × (q.target ≡ s)
unfolding conclude
conclude-inv q s h = elim (Bool-cases (is_empty q.missing)) [
  | inl a ↦ elim (Bool-cases (is_empty q.unhandled)) [
    | inl b ↦
        let h' = rw (a, b, conclude) at h in
        (is_empty-nil q.missing a, is_empty-nil q.unhandled b, cc)
    | inr b ↦ let h' = rw (a, b, conclude) at h in cc
  ]
  | inr a ↦ let h' = rw (a, conclude) at h in cc
]

-- A conversion that succeeds ran, in the order of the readings, the extractor of each one's gatherer,
-- and every gatherer that has an extractor is read.
pub convert_data_readings_complete :
    (fs : Extractors) (rs : List DataReading) (target s : Snapshot)
    → convert_data_readings fs rs target ≡ ok s
    → Extracts fs rs target s × ((k : String) → Memᴰ k (names fs) → IsRead rs k)
unfolding convert_data_readings
convert_data_readings_complete fs rs target s h =
    let (q, looped, ended) =
      >>=-eq-ok
        (convert_loop fs rs (record { missing = names fs; unhandled = []; target = target }))
        conclude h in
    let (nothing_missing, clean, made) = conclude-inv q s ended in
    let (_, extracts, met) = convert_loop-inv fs rs _ q looped clean in
    (
      rw (← made) extracts,
      λ k m. elim (met k m) [
        | inl found ↦ found
        | inr left ↦ elim (rw nothing_missing at left) [ ]
      ],
    )
