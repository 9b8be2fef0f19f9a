-- ===== src/Api/Json/RoundTrip.antt =====
-- What is marshalled is unmarshalled: the types of the data are told apart by the names of their fields.
use mathlib.Core.List.{Memᴰ}
use jetstack_secure.Prelude.{
  ℕ, String, ◌≡◌, ◌≢◌, refl, sym, ap, ◌∙◌, subst, false, Option, none, some, List, [], ◌∷◌, eqb,
  Bool-cases, inl, inr, ◌⊎◌, arith, ◌==◌, eq_iff,
}
use jetstack_secure.Prelude.Results.{Result, ok, err, >>=-eq-ok, Result-cases}
use jetstack_secure.Prelude.Lists.{All, All-mem}
use jetstack_secure.Api.{DataReading}
use jetstack_secure.Api.Json.Laws.{oidc_names, discovery_names, IsBlank, Laws}
use jetstack_secure.Api.Json.{
  SentResource, Data, ReadingFields, Json, marshal_time, marshal_gathered_resource, marshal_item,
  marshal_each, marshal_data, marshal_reading, unmarshal_gathered_resource, unmarshal_item,
  unmarshal_each, data_types, decode_first, is_empty_data, unmarshal_data, unmarshal_reading,
}

apart : (s t : String) → (s == t) ≡ false → s ≢ t
apart s t differ e = let same = (eq_iff s t).1 e in cc

module _ {J V U : Type 0} (json : Json J V U) (laws : Laws json) where
  -- An item that JSON can carry: nil, or an object, deleted at an instant that can be printed, or not.
  abbrev pub IsSentItem : Option (SentResource U) → Type 0
  IsSentItem none = Unit
  IsSentItem (some v) =
      laws.IsObject v.resource × ((v.deleted_at ≡ 0) ⊎ laws.IsPrintable v.deleted_at)

  abbrev pub IsSentData : Data J V U → Type 0
  IsSentData (Data.oidc d) = laws.IsKept d × ¬ IsBlank d
  IsSentData (Data.discovery d) = Unit
  IsSentData (Data.dynamic items) = All IsSentItem items

  -- The names of the fields of two types are apart.
  fold_apart :
      (k n : String) → laws.fold k ≡ k → laws.fold n ≡ n → k ≢ n → laws.fold k ≢ laws.fold n
  fold_apart k n fk fn differ e = differ (sym fk ∙ (e ∙ fn))

  not_oidc :
      (k : String) (raw : json.Raw)
      → laws.fold k ≡ k
      → All (λ n. k ≢ n) oidc_names
      → Memᴰ k (laws.members raw)
      → (e : String) × (json.decode_oidc raw ≡ err e)
  not_oidc k raw fk differ m = elim (Result-cases (json.decode_oidc raw)) [
    | inl (d, decoded) ↦
        let (n, listed, e) = laws.oidc-strict raw d decoded k m in
        let folds = laws.fold_tags.1.1.1 in
        absurd (
          fold_apart k n fk (All-mem (λ m. laws.fold m ≡ m) oidc_names n folds listed)
            (All-mem (λ m. k ≢ m) oidc_names n differ listed) e)
    | inr failed ↦ failed
  ]

  not_discovery :
      (raw : json.Raw)
      → Memᴰ "items" (laws.members raw)
      → (e : String) × (json.decode_discovery raw ≡ err e)
  not_discovery raw m = elim (Result-cases (json.decode_discovery raw)) [
    | inl (d, decoded) ↦
        let (n, listed, e) = laws.discovery-strict raw d decoded "items" m in
        let folds : All (λ m. laws.fold m ≡ m) discovery_names =
          (laws.fold_tags.1.0, (laws.fold_tags.1.1.0, tt)) in
        absurd (
          fold_apart "items" n laws.fold_tags.0
            (All-mem (λ m. laws.fold m ≡ m) discovery_names n folds listed)
            (All-mem (λ m. "items" ≢ m) discovery_names n (apart _ _ refl, (apart _ _ refl, tt))
              listed)
            e)
    | inr failed ↦ failed
  ]

  unmarshal_gathered_resource-marshal :
      (v : SentResource U) (raw : json.Raw)
      → IsSentItem (some v)
      → marshal_gathered_resource json v ≡ ok raw
      → unmarshal_gathered_resource json raw ≡ ok v
  unfolding marshal_gathered_resource unmarshal_gathered_resource
  unmarshal_gathered_resource-marshal v raw (object, when) h =
      elim (Bool-cases (eqb v.deleted_at 0)) [
        | inl zero_time ↦
            let h' = rw (zero_time, marshal_gathered_resource) at h in
            let is_zero : v.deleted_at ≡ 0 = ground arith in
            rw (laws.decode_resource-live v.resource raw object h')
              (ap (λ t. ok (record { resource = v.resource; deleted_at = t })) (sym is_zero))
        | inr later ↦
            let h' = rw (later, marshal_gathered_resource) at h in
            let printable : laws.IsPrintable v.deleted_at = elim when [
              | inl z ↦ absurd (ground arith)
              | inr p ↦ p
            ] in
            rw (laws.decode_resource-deleted v.resource v.deleted_at raw object printable h') refl
      ]

  unmarshal_item-marshal :
      (v : Option (SentResource U)) (raw : Option json.Raw)
      → IsSentItem v
      → marshal_item json v ≡ ok raw
      → unmarshal_item json raw ≡ ok v
  unfolding marshal_item unmarshal_item
  unmarshal_item-marshal none raw sent h =
      let same : none ≡ raw = cc in subst (λ r. unmarshal_item json r ≡ ok none) same refl
  unmarshal_item-marshal (some v) raw sent h =
      let (text, one, h1) = >>=-eq-ok (marshal_gathered_resource json v) _ h in
      let same : some text ≡ raw = cc in
      subst (λ r. unmarshal_item json r ≡ ok (some v)) same
        (rw (unmarshal_gathered_resource-marshal v text sent one) refl)

  unmarshal_each-marshal :
      (vs : List (Option (SentResource U))) (raws : List (Option json.Raw))
      → All IsSentItem vs
      → marshal_each json vs ≡ ok raws
      → unmarshal_each json raws ≡ ok vs
  unfolding marshal_each unmarshal_each
  unmarshal_each-marshal [] raws sent h =
      let same : [] ≡ raws = cc in subst (λ rs. unmarshal_each json rs ≡ ok []) same refl
  unmarshal_each-marshal (v ∷ vs) raws (first, later) h =
      let (raw, one, h1) = >>=-eq-ok (marshal_item json v) _ h in
      let (rest, many, h2) = >>=-eq-ok (marshal_each json vs) _ h1 in
      let same : raw ∷ rest ≡ raws = cc in
      subst (λ rs. unmarshal_each json rs ≡ ok (v ∷ vs)) same
        (rw (unmarshal_item-marshal v raw first one, unmarshal_each-marshal vs rest later many)
          refl)

  decode_first-cons :
      (attempt : json.Raw → Result String (Data J V U))
      (attempts : List (json.Raw → Result String (Data J V U))) (raw : json.Raw) (e : String)
      → attempt raw ≡ err e
      → decode_first json (attempt ∷ attempts) raw ≡ decode_first json attempts raw
  unfolding decode_first
  decode_first-cons attempt attempts raw e failed = rw failed refl

  -- No earlier type takes what is marshalled, and its own type gives it back.
  decode_first-marshal :
      (d : Data J V U) (raw : json.Raw)
      → IsSentData d
      → marshal_data json d ≡ ok raw
      → decode_first json (data_types json) raw ≡ some d
  unfolding marshal_data data_types decode_first
  decode_first-marshal (Data.oidc d) raw (kept, _) h =
      rw (data_types, decode_first, laws.decode_oidc-marshal d raw kept h) refl
  decode_first-marshal (Data.discovery d) raw sent h =
      let (e, failed) =
        not_oidc "cluster_id" raw laws.fold_tags.1.0
          (apart _ _ refl, (apart _ _ refl, (apart _ _ refl, (apart _ _ refl, tt))))
          (subst (Memᴰ "cluster_id") (sym (laws.members-discovery d raw h)) (Memᴰ.head refl)) in
      rw (data_types, decode_first, failed, laws.decode_discovery-marshal d raw h) refl
  decode_first-marshal (Data.dynamic items) raw sent h =
      let (raws, many, h1) = >>=-eq-ok (marshal_each json items) _ h in
      let same : json.marshal_items raws ≡ raw = cc in
      let member : Memᴰ "items" (laws.members raw) =
        subst (λ r. Memᴰ "items" (laws.members r)) same
          (subst (Memᴰ "items") (sym (laws.members-items raws)) (Memᴰ.head refl)) in
      let (e, failed) =
        not_oidc "items" raw laws.fold_tags.0
          (apart _ _ refl, (apart _ _ refl, (apart _ _ refl, (apart _ _ refl, tt)))) member in
      let (e', failed') = not_discovery raw member in
      let decoded : json.decode_items raw ≡ ok raws =
        subst (λ r. json.decode_items r ≡ ok raws) same (laws.decode_items-marshal raws) in
      rw
        (
          data_types,
          decode_first,
          failed,
          failed',
          decoded,
          unmarshal_each-marshal items raws sent many,
        )
        refl

  marshal_data-members :
      (d : Data J V U) (raw : json.Raw)
      → IsSentData d
      → marshal_data json d ≡ ok raw
      → laws.members raw ≢ []
  unfolding marshal_data
  marshal_data-members (Data.oidc d) raw (kept, told) h e = told (laws.members-oidc d raw kept h e)
  marshal_data-members (Data.discovery d) raw sent h e =
      let e' = sym (laws.members-discovery d raw h) ∙ e in cc
  marshal_data-members (Data.dynamic items) raw sent h e =
      let (raws, many, h1) = >>=-eq-ok (marshal_each json items) _ h in
      let same : json.marshal_items raws ≡ raw = cc in
      let e' = sym (laws.members-items raws) ∙ (ap laws.members same ∙ e) in cc

  not_empty-marshal :
      (d : Data J V U) (raw : json.Raw)
      → IsSentData d
      → marshal_data json d ≡ ok raw
      → is_empty_data json raw ≡ false
  not_empty-marshal d raw sent h = elim (Bool-cases (is_empty_data json raw)) [
    | inr there ↦ there
    | inl empty ↦ absurd (marshal_data-members d raw sent h (laws.members-empty raw empty))
  ]

  -- A reading that is marshalled is unmarshalled as it was, if its time stamp can be printed, and its data is
  -- the server's version; or items that JSON can carry; or OIDC data that JSON keeps, with a document or an
  -- error in it.
  pub unmarshal_reading-marshal :
      (o : DataReading (Data J V U)) (raw : json.Raw)
      → laws.IsPrintable o.timestamp
      → IsSentData o.content
      → marshal_reading json o ≡ ok raw
      → unmarshal_reading json raw ≡ ok o
  unfolding marshal_reading marshal_time unmarshal_reading unmarshal_data
  unmarshal_reading-marshal o raw printable sent h =
      let (timestamp, stamped, h1) = >>=-eq-ok (marshal_time json o.timestamp) _ h in
      let (content, marshalled, h2) = >>=-eq-ok (marshal_data json o.content) _ h1 in
      let fields : ReadingFields ℕ json.Raw = record {
        cluster_id = o.cluster_id;
        data_gatherer = o.data_gatherer;
        timestamp = o.timestamp;
        content = content;
        schema_version = o.schema_version;
      } in
      let parsed = laws.decode_fields-marshal fields timestamp printable stamped in
      let same : json.marshal_fields (record {
        cluster_id = o.cluster_id;
        data_gatherer = o.data_gatherer;
        timestamp = timestamp;
        content = content;
        schema_version = o.schema_version;
      })
          ≡ raw =
        cc in
      subst (λ r. unmarshal_reading json r ≡ ok o) same
        (rw
          (
            parsed,
            not_empty-marshal o.content content sent marshalled,
            decode_first-marshal o.content content sent marshalled,
          )
          refl)
