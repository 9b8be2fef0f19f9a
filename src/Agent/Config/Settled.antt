-- ===== src/Agent/Config/Settled.antt =====
-- The data gatherers and the period of a configuration without errors.
use jetstack_secure.Prelude.{
  ℕ, zero, suc, ◌+◌, ◌≡◌, ◌↔◌, refl, Bool, true, false, ◌&&◌, List, [], ◌∷◌, arith, ◌==◌, is_set,
  inl, inr, ◌⊎◌,
}
use jetstack_secure.Prelude.Lists.{all}
use jetstack_secure.Prelude.Int.{ℤ, pos, negsuc, is_zero, is_positive}
use jetstack_secure.Agent.Config.{Config, DataGatherer, AgentCmdFlags}
use jetstack_secure.Agent.Config.Mode.{error_if}
use jetstack_secure.Agent.Config.Selection.{append-nil, error_if-nil}
use jetstack_secure.Agent.Config.Settings.{gatherer_errors, validate_data_gatherers, combine_period}

abbrev pub is_named : DataGatherer → Bool
is_named dg = is_set dg.kind && is_set dg.name

gatherer_errors-nil :
    (i : ℕ) (dgs : List DataGatherer) → gatherer_errors i dgs ≡ [] → all is_named dgs ≡ true
unfolding gatherer_errors
gatherer_errors-nil i [] h = refl
gatherer_errors-nil i (dg ∷ dgs) h =
    let (a, h1) = append-nil _ _ h in
    let (b, h2) = append-nil _ _ h1 in
    let kind : (dg.kind == "") ≡ false = error_if-nil _ _ a in
    let name : (dg.name == "") ≡ false = error_if-nil _ _ b in
    let rest = gatherer_errors-nil (i + 1) dgs h2 in ground arith

nil-gatherer_errors :
    (i : ℕ) (dgs : List DataGatherer) → all is_named dgs ≡ true → gatherer_errors i dgs ≡ []
unfolding gatherer_errors error_if
nil-gatherer_errors i [] h = refl
nil-gatherer_errors i (dg ∷ dgs) h =
    let kind : (dg.kind == "") ≡ false = ground arith in
    let name : (dg.name == "") ≡ false = ground arith in
    rw (kind, name) (nil-gatherer_errors (i + 1) dgs (ground arith))

-- The data gatherers are accepted exactly when every one has a kind and a name.
validate_data_gatherers_iff :
    (dgs : List DataGatherer) → (validate_data_gatherers dgs ≡ []) ↔ (all is_named dgs ≡ true)
unfolding validate_data_gatherers
validate_data_gatherers_iff dgs = (gatherer_errors-nil 0 dgs, nil-gatherer_errors 0 dgs)

-- Neither zero nor positive.
abbrev pub is_negative : ℤ → Bool
is_negative (pos n) = false
is_negative (negsuc n) = true

not_negative :
    (d : ℤ)
    → is_negative d ≡ false
    → ((is_zero d ≡ true) × (is_positive d ≡ false))
      ⊎ ((is_zero d ≡ false) × (is_positive d ≡ true))
not_negative (pos zero) h = inl (refl, refl)
not_negative (pos (suc n)) h = inr (refl, refl)
not_negative (negsuc n) h = cc

-- When neither duration is negative, the period of an agent that is not run once is accepted exactly if
-- one of the durations is positive, and then it is the flag's if that is positive, or else the file's.
pub combine_period_lem :
    (cfg : Config) (flags : AgentCmdFlags)
    → flags.one_shot ≡ false
    → is_negative flags.period ≡ false
    → is_negative cfg.period ≡ false
    → ((combine_period cfg flags).errors ≡ []) ↔ (
        ((is_positive flags.period ≡ true) × ((combine_period cfg flags).value ≡ flags.period))
        ⊎ ((is_zero flags.period ≡ true)
            × (is_positive cfg.period ≡ true)
            × ((combine_period cfg flags).value ≡ cfg.period)))
unfolding combine_period
combine_period_lem cfg flags many f c = elim (not_negative flags.period f) [
  | inl (z, p) ↦ elim (not_negative cfg.period c) [
    | inl (z', p') ↦
        rw (many, z, p, z', p') (λ h. cc, λ h. elim h [ inl (a, b) ↦ cc | inr (a, b, d) ↦ cc ])
    | inr (z', p') ↦ rw (many, z, p, z', p') (λ h. inr (refl, refl, refl), λ h. refl)
  ]
  | inr (z, p) ↦ elim (not_negative cfg.period c) [
    | inl (z', p') ↦ rw (many, z, p, z', p') (λ h. inl (refl, refl), λ h. refl)
    | inr (z', p') ↦ rw (many, z, p, z', p') (λ h. inl (refl, refl), λ h. refl)
  ]
]
