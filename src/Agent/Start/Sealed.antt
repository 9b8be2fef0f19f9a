-- ===== src/Agent/Start/Sealed.antt =====
-- What the gatherers that are started have: the encryptor, and the exclusion patterns.
use mathlib.Core.List.{Memᴰ}
use jetstack_secure.Prelude.{
  String, ◌≡◌, refl, ap, sym, ◌∙◌, subst, true, false, Option, none, some, List, [], ◌∷◌, ◌⊎◌, inl,
  inr, arith, ◌==◌, eq_iff, is_set, Bool-cases,
}
use jetstack_secure.Prelude.Results.{Result, ok, err, Result-cases, >>=-eq-ok}
use jetstack_secure.K8sDynamic.Redaction.{Encryptor}
use jetstack_secure.K8sDynamic.Fetch as K8sDynamicFetch
use jetstack_secure.Agent.Config.{CombinedConfig, DataGatherer}
use jetstack_secure.Agent.Start.{
  ClientKind, EncryptorParts, LoadError, Gatherer, load_encryptor, loaded, secrets_encryptor,
  sealed_by, is_core_secrets, configure, assign, start_gatherer, start_gatherers,
}

-- A gatherer has no encryptor yet.
abbrev pub IsBare : Gatherer → Type 0
IsBare (Gatherer.other name) = Unit
IsBare (Gatherer.dynamic g) = g.redactor.encryptor ≡ none

-- The encryptor that a gatherer has is the one that was loaded for a CyberArk client at the user's
-- request, and the gatherer reads the secrets of the core API.
pub record IsGranted (to_lower : String → String) (value : String) (parts : EncryptorParts)
    (kind : ClientKind) (g : K8sDynamicFetch.DataGatherer) (encryptor : Encryptor) : Type 0 where
  pub is_requested : to_lower value ≡ "true"
  pub is_cyber_ark : kind ≡ ClientKind.cyber_ark
  pub is_loaded : load_encryptor parts kind ≡ ok encryptor
  pub is_secrets : g.group_version_resource.resource ≡ "secrets"
  pub is_core : g.group_version_resource.group ≡ ""

load_encryptor-kind :
    (parts : EncryptorParts) (kind : ClientKind) (encryptor : Encryptor)
    → load_encryptor parts kind ≡ ok encryptor
    → kind ≡ ClientKind.cyber_ark
unfolding load_encryptor
load_encryptor-kind parts ClientKind.cyber_ark encryptor h = refl
load_encryptor-kind parts ClientKind.ven_conn encryptor h = cc
load_encryptor-kind parts ClientKind.other_client encryptor h = cc

loaded-some :
    (r : Result LoadError Encryptor) (encryptor : Encryptor)
    → loaded r ≡ some encryptor
    → r ≡ ok encryptor
unfolding loaded
loaded-some (ok e) encryptor h = cc
loaded-some (err e) encryptor h = cc

secrets_encryptor-some :
    (to_lower : String → String) (value : String) (r : Result LoadError Encryptor)
    (encryptor : Encryptor)
    → secrets_encryptor to_lower value r ≡ some encryptor
    → (to_lower value ≡ "true") × (r ≡ ok encryptor)
unfolding secrets_encryptor
secrets_encryptor-some to_lower value r encryptor h = elim (Bool-cases (to_lower value == "true")) [
  | inl asked ↦ (
    (eq_iff (to_lower value) "true").0 asked,
    loaded-some r encryptor (let h' = rw asked at h in h'),
  )
  | inr unasked ↦ let h' = rw unasked at h in cc
]

is_core_secrets-inv :
    (g : K8sDynamicFetch.DataGatherer)
    → is_core_secrets g.group_version_resource ≡ true
    → (g.group_version_resource.resource ≡ "secrets") × (g.group_version_resource.group ≡ "")
unfolding is_core_secrets
is_core_secrets-inv g h = (
  ground (arith, eq_iff g.group_version_resource.resource "secrets"),
  ground (arith, eq_iff g.group_version_resource.group ""),
)

sealed_by-some :
    (e : Option Encryptor) (g : K8sDynamicFetch.DataGatherer) (encryptor : Encryptor)
    → sealed_by e g.group_version_resource none ≡ some encryptor
    → (e ≡ some encryptor) × (is_core_secrets g.group_version_resource ≡ true)
unfolding sealed_by
sealed_by-some none g encryptor h = cc
sealed_by-some (some e) g encryptor h =
    elim (Bool-cases (is_core_secrets g.group_version_resource)) [
      | inl core ↦ let h' = rw core at h in (h', core)
      | inr not_core ↦ let h' = rw not_core at h in cc
    ]

underlying : K8sDynamicFetch.DataGatherer → Gatherer → K8sDynamicFetch.DataGatherer
underlying otherwise (Gatherer.dynamic g) = g
underlying otherwise (Gatherer.other name) = otherwise

configure-encryptor :
    (e : Option Encryptor) (kind : ClientKind) (config : CombinedConfig) (g0 : Gatherer)
    (g : K8sDynamicFetch.DataGatherer) (encryptor : Encryptor)
    → IsBare g0
    → Gatherer.dynamic g ≡ configure e kind config g0
    → g.redactor.encryptor ≡ some encryptor
    → (e ≡ some encryptor) × (is_core_secrets g.group_version_resource ≡ true)
unfolding configure underlying
configure-encryptor e kind config (Gatherer.other name) g encryptor bare same h = cc
configure-encryptor e kind config (Gatherer.dynamic g0) g encryptor bare same h =
    let made = ap (underlying g) same in
    let chosen : sealed_by e g0.group_version_resource g0.redactor.encryptor ≡ some encryptor =
      sym (ap (λ (d : K8sDynamicFetch.DataGatherer). d.redactor.encryptor) made) ∙ h in
    let (given, core) =
      sealed_by-some e g0 encryptor
        (subst (λ o. sealed_by e g0.group_version_resource o ≡ some encryptor) bare chosen) in
    (
      given,
      ap (λ (d : K8sDynamicFetch.DataGatherer). is_core_secrets d.group_version_resource) made
          ∙ core,
    )

assign-mem {ℓ} :
    {A : Type ℓ} (name : String) (a : A) (m : List (String × A)) (entry : String × A)
    → Memᴰ entry (assign name a m)
    → (entry ≡ (name, a)) ⊎ Memᴰ entry m
unfolding assign
assign-mem name a [] entry (Memᴰ.head e) = inl e
assign-mem name a [] entry (Memᴰ.tail m) = elim m [ ]
assign-mem name a ((key, b) ∷ rest) entry mem = elim (Bool-cases (key == name)) [
  | inl same ↦ elim (rw same at mem) [
    | Memᴰ.head e ↦ inl e
    | Memᴰ.tail later ↦ inr (Memᴰ.tail later)
  ]
  | inr different ↦ elim (rw different at mem) [
    | Memᴰ.head e ↦ inr (Memᴰ.head e)
    | Memᴰ.tail later ↦ elim (assign-mem name a rest entry later) [
      | inl e ↦ inl e
      | inr old ↦ inr (Memᴰ.tail old)
    ]
  ]
]

module _ (new_data_gatherer : DataGatherer → Result String Gatherer) (encryptor : Option Encryptor)
    (kind : ClientKind) (config : CombinedConfig) where
  -- Where an entry of the map comes from.
  pub record IsStarted (dgs : List DataGatherer) (entry : String × Gatherer) : Type 0 where
    pub section : DataGatherer
    pub created : Gatherer
    pub is_section : Memᴰ section dgs
    pub is_named : entry.0 ≡ section.name
    pub has_no_path : is_set section.data_path ≡ false
    pub is_created : new_data_gatherer section ≡ ok created
    pub is_configured : entry.1 ≡ configure encryptor kind config created

  IsStarted-there :
      (dg : DataGatherer) (dgs : List DataGatherer) (entry : String × Gatherer)
      → IsStarted dgs entry
      → IsStarted (dg ∷ dgs) entry
  IsStarted-there dg dgs entry s = record {
    section = s.section;
    created = s.created;
    is_section = Memᴰ.tail s.is_section;
    is_named = s.is_named;
    has_no_path = s.has_no_path;
    is_created = s.is_created;
    is_configured = s.is_configured;
  }

  start_gatherer-IsStarted :
      (dg : DataGatherer) (dgs : List DataGatherer) (g : Gatherer) (entry : String × Gatherer)
      → start_gatherer new_data_gatherer encryptor kind config dg ≡ ok g
      → entry ≡ (dg.name, g)
      → IsStarted (dg ∷ dgs) entry
  unfolding start_gatherer
  start_gatherer-IsStarted dg dgs g entry h same = elim (Bool-cases (is_set dg.data_path)) [
    | inl set ↦ let h' = rw (set, start_gatherer) at h in cc
    | inr unset ↦ elim (Result-cases (new_data_gatherer dg)) [
      | inr (e, failed) ↦ let h' = rw (unset, failed, start_gatherer) at h in cc
      | inl (g0, made) ↦
          let h' : configure encryptor kind config g0 ≡ g =
            let made' = rw (unset, made, start_gatherer) at h in cc in
          record {
            section = dg;
            created = g0;
            is_section = Memᴰ.head refl;
            is_named = ap (λ (e : String × Gatherer). e.0) same;
            has_no_path = unset;
            is_created = made;
            is_configured = ap (λ (e : String × Gatherer). e.1) same ∙ sym h';
          }
    ]
  ]

  start_gatherers-origin :
      (dgs : List DataGatherer) (before started : List (String × Gatherer))
      (entry : String × Gatherer)
      → start_gatherers new_data_gatherer encryptor kind config dgs before ≡ ok started
      → Memᴰ entry started
      → IsStarted dgs entry ⊎ Memᴰ entry before
  unfolding start_gatherers
  start_gatherers-origin [] before started entry h m =
      let same : before ≡ started = cc in inr (subst (Memᴰ entry) (sym same) m)
  start_gatherers-origin (dg ∷ dgs) before started entry h m =
      let (g, made, rest) =
        >>=-eq-ok (start_gatherer new_data_gatherer encryptor kind config dg) _ h in
      elim (start_gatherers-origin dgs (assign dg.name g before) started entry rest m) [
        | inl s ↦ inl (IsStarted-there dg dgs entry s)
        | inr assigned ↦ elim (assign-mem dg.name g before entry assigned) [
          | inl e ↦ inl (start_gatherer-IsStarted dg dgs g entry made e)
          | inr old ↦ inr old
        ]
      ]

  -- Every gatherer that is started was made from a section of the configuration without a data path,
  -- goes by its name, and is configured.
  pub start_gatherers-IsStarted :
      (dgs : List DataGatherer) (started : List (String × Gatherer)) (entry : String × Gatherer)
      → start_gatherers new_data_gatherer encryptor kind config dgs [] ≡ ok started
      → Memᴰ entry started
      → IsStarted dgs entry
  start_gatherers-IsStarted dgs started entry h m =
      elim (start_gatherers-origin dgs [] started entry h m) [
        | inl s ↦ s
        | inr none_before ↦ elim none_before [ ]
      ]

-- Where the gatherers that are made have no encryptor, one that is started has an encryptor only if the
-- user asked for it, the client is CyberArk's, the encryptor was loaded for it, and the gatherer reads
-- the secrets of the core API.
pub start_gatherers-IsGranted :
    (new_data_gatherer : DataGatherer → Result String Gatherer) (to_lower : String → String)
    (value : String) (parts : EncryptorParts) (kind : ClientKind) (config : CombinedConfig)
    (dgs : List DataGatherer) (started : List (String × Gatherer)) (name : String)
    (g : K8sDynamicFetch.DataGatherer) (encryptor : Encryptor)
    → ((dg : DataGatherer) (g0 : Gatherer) → new_data_gatherer dg ≡ ok g0 → IsBare g0)
    → start_gatherers new_data_gatherer
        (secrets_encryptor to_lower value (load_encryptor parts kind))
        kind
        config
        dgs
        []
      ≡ ok started
    → Memᴰ (name, Gatherer.dynamic g) started
    → g.redactor.encryptor ≡ some encryptor
    → IsGranted to_lower value parts kind g encryptor
start_gatherers-IsGranted new_data_gatherer to_lower value parts kind config dgs started name g
      encryptor bare h m has =
    let e = secrets_encryptor to_lower value (load_encryptor parts kind) in
    let s =
      start_gatherers-IsStarted new_data_gatherer e kind config dgs started
        (name, Gatherer.dynamic g) h m in
    let (given, core) =
      configure-encryptor e kind config s.created g encryptor
        (bare s.section s.created s.is_created) s.is_configured has in
    let (asked, made) =
      secrets_encryptor-some to_lower value (load_encryptor parts kind) encryptor given in
    let (resource, group) = is_core_secrets-inv g core in
    record {
      is_requested = asked;
      is_cyber_ark = load_encryptor-kind parts kind encryptor made;
      is_loaded = made;
      is_secrets = resource;
      is_core = group;
    }
