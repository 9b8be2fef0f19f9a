-- ===== src/Api/Json/Tests.antt =====
-- A small JSON library, whose texts are trees and which prints two instants, and a reading of each type.
use mathlib.Core.List.{Memᴰ}
use jetstack_secure.Prelude.{
  ℕ, String, ◌≡◌, refl, sym, subst, Bool, true, false, ◌&&◌, ◌||◌, Option, none, some, List, [],
  ◌∷◌, ◌⊎◌, inl, inr, ◌==◌, eqb, is_set, is_some, arith, eq_iff, if◌then◌else◌,
}
use jetstack_secure.Prelude.Results.{Result, ok, err}
use jetstack_secure.Prelude.Lists.{is_empty, is_empty-nil}
use jetstack_secure.Api.{DataReading}
use jetstack_secure.Gatherers.Oidc.{OidcDiscoveryData}
use jetstack_secure.Gatherers.Discovery.{DiscoveryData}
use jetstack_secure.Api.Json.{
  Data, ReadingFields, Json, ReadingError, is_empty_data, marshal_reading, unmarshal_reading,
}
use jetstack_secure.Api.Json.Laws.{oidc_names, discovery_names, IsBlank, Laws}
use jetstack_secure.Api.Json.RoundTrip.{unmarshal_reading-marshal}

data Tree : Type 0 where
  text : String → Tree
  fields : String → String → Tree → Tree → String → Tree
  oidc : OidcDiscoveryData String → Tree
  discovery : DiscoveryData String → Tree
  resource : String → String → Tree
  no_items : Tree
  nil_item : Tree → Tree
  item : Tree → Tree → Tree

abbrev zero_text : String
zero_text = "0001-01-01T00:00:00Z"

abbrev format : ℕ → String
format t = if eqb t 0 then zero_text else "0001-01-01T00:00:01Z"

abbrev parse : String → ℕ
parse s = if s == zero_text || s == "" then 0 else 1000000000

abbrev present : Bool → String → List String → List String
present true name rest = name ∷ rest
present false name rest = rest

abbrev oidc_members : OidcDiscoveryData String → List String
oidc_members d = present (is_some d.oidc_config) "openid_configuration" (
    present (is_set d.oidc_config_error) "openid_configuration_error"
      (present (is_some d.jwks) "jwks" (present (is_set d.jwks_error) "jwks_error" [])))

abbrev members : Tree → List String
members (oidc d) = oidc_members d
members (discovery d) = discovery_names
members no_items = "items" ∷ []
members (nil_item rest) = "items" ∷ []
members (item first rest) = "items" ∷ []
members _ = []

abbrev is_text : Tree → String → Bool
is_text (text t) s = t == s
is_text (oidc d) s = s == "{}" && is_empty (oidc_members d)
is_text _ s = false

abbrev decode_fields : Tree → Result String (ReadingFields ℕ Tree)
decode_fields (fields id gatherer (text t) content version) = ok (record {
  cluster_id = id;
  data_gatherer = gatherer;
  timestamp = parse t;
  content = content;
  schema_version = version;
})
decode_fields _ = err "no reading"

abbrev decode_oidc : Tree → Result String (OidcDiscoveryData String)
decode_oidc (oidc d) = ok d
decode_oidc _ = err "unknown field"

abbrev decode_discovery : Tree → Result String (DiscoveryData String)
decode_discovery (discovery d) = ok d
decode_discovery _ = err "unknown field"

abbrev marshal_items : List (Option Tree) → Tree
marshal_items [] = no_items
marshal_items (none ∷ rest) = nil_item (marshal_items rest)
marshal_items (some raw ∷ rest) = item raw (marshal_items rest)

abbrev cons_item :
    Option Tree → Result String (List (Option Tree)) → Result String (List (Option Tree))
cons_item raw (ok rest) = ok (raw ∷ rest)
cons_item raw (err e) = err e

abbrev decode_items : Tree → Result String (List (Option Tree))
decode_items no_items = ok []
decode_items (nil_item rest) = cons_item none (decode_items rest)
decode_items (item raw rest) = cons_item (some raw) (decode_items rest)
decode_items _ = err "unknown field"

abbrev decode_resource : Tree → Result String (String × ℕ)
decode_resource (resource u deleted_at) = ok (u, parse deleted_at)
decode_resource _ = err "unknown field"

abbrev json : Json String String String
json = record {
  Raw = Tree;
  is_text = is_text;
  format = format;
  marshal_text = λ s. ok (text s);
  marshal_fields = λ r. fields r.cluster_id r.data_gatherer r.timestamp r.content r.schema_version;
  decode_fields = decode_fields;
  marshal_oidc = λ d. ok (oidc d);
  decode_oidc = decode_oidc;
  marshal_discovery = λ d. ok (discovery d);
  decode_discovery = decode_discovery;
  marshal_items = marshal_items;
  decode_items = decode_items;
  marshal_resource = λ u deleted_at. ok (resource u deleted_at);
  decode_resource = decode_resource;
}

abbrev IsPrintable : ℕ → Type 0
IsPrintable t = (t ≡ 0) ⊎ (t ≡ 1000000000)

parse-format : (t : ℕ) → IsPrintable t → parse (format t) ≡ t
parse-format t (inl e) = subst (λ n. parse (format n) ≡ n) (sym e) refl
parse-format t (inr e) = subst (λ n. parse (format n) ≡ n) (sym e) refl

decode_items-marshal : (raws : List (Option Tree)) → decode_items (marshal_items raws) ≡ ok raws
decode_items-marshal [] = refl
decode_items-marshal (none ∷ rest) = rw (decode_items-marshal rest) refl
decode_items-marshal (some raw ∷ rest) = rw (decode_items-marshal rest) refl

members-items : (raws : List (Option Tree)) → members (marshal_items raws) ≡ "items" ∷ []
members-items [] = refl
members-items (none ∷ rest) = refl
members-items (some raw ∷ rest) = refl

-- A member that is there is one of the names.
mem-present :
    (there : Bool) (name k : String) (rest names : List String)
    → (Memᴰ k rest → Memᴰ k names)
    → Memᴰ k (present there name rest)
    → Memᴰ k (name ∷ names)
mem-present true name k rest names later (Memᴰ.head e) = Memᴰ.head e
mem-present true name k rest names later (Memᴰ.tail m) = Memᴰ.tail (later m)
mem-present false name k rest names later m = Memᴰ.tail (later m)

oidc-strict :
    (raw : Tree) (d : OidcDiscoveryData String)
    → decode_oidc raw ≡ ok d
    → (k : String) → Memᴰ k (members raw)
    → (n : String) × Memᴰ n oidc_names × (k ≡ n)
oidc-strict (oidc u) d h k m = (
  k,
  mem-present (is_some u.oidc_config) _ k _ _
      (mem-present (is_set u.oidc_config_error) _ k _ _ (
        mem-present (is_some u.jwks) _ k _ _
          (mem-present (is_set u.jwks_error) _ k [] [] (λ x. x))))
      m,
  refl,
)
oidc-strict _ d h k m = cc

discovery-strict :
    (raw : Tree) (d : DiscoveryData String)
    → decode_discovery raw ≡ ok d
    → (k : String) → Memᴰ k (members raw)
    → (n : String) × Memᴰ n discovery_names × (k ≡ n)
discovery-strict (discovery u) d h k m = (k, m, refl)
discovery-strict _ d h k m = cc

present-nil :
    (there : Bool) (name : String) (rest : List String)
    → present there name rest ≡ []
    → (there ≡ false) × (rest ≡ [])
present-nil true name rest h = cc
present-nil false name rest h = (refl, h)

is_some-none : (o : Option String) → is_some o ≡ false → o ≡ none
is_some-none none h = refl
is_some-none (some s) h = cc

is_set-none : (s : String) → is_set s ≡ false → s ≡ ""
is_set-none s h = (eq_iff s "").0 (ground arith)

members-oidc : (d : OidcDiscoveryData String) → oidc_members d ≡ [] → IsBlank d
members-oidc d h =
    let (a, h1) = present-nil (is_some d.oidc_config) _ _ h in
    let (b, h2) = present-nil (is_set d.oidc_config_error) _ _ h1 in
    let (c, h3) = present-nil (is_some d.jwks) _ _ h2 in
    let (e, _) = present-nil (is_set d.jwks_error) _ _ h3 in
    (
      is_some-none d.oidc_config a,
      is_set-none d.oidc_config_error b,
      is_some-none d.jwks c,
      is_set-none d.jwks_error e,
    )

members-empty : (raw : Tree) → is_empty_data json raw ≡ true → members raw ≡ []
unfolding is_empty_data
members-empty (text s) h = refl
members-empty (fields a b c d e) h = refl
members-empty (resource u t) h = refl
members-empty (oidc d) h = is_empty-nil (oidc_members d) h
members-empty _ h = cc

decode_resource-deleted :
    (u : String) (t : ℕ) (raw : Tree)
    → IsPrintable t
    → resource u (format t) ≡ raw
    → decode_resource raw ≡ ok (u, t)
decode_resource-deleted u t raw printable same =
    subst (λ r. decode_resource r ≡ ok (u, t)) same (rw (parse-format t printable) refl)

abbrev laws : Laws json
laws = record {
  IsPrintable = IsPrintable;
  IsKept = λ d. Unit;
  IsObject = λ u. Unit;
  fold = λ s. s;
  fold_tags = (refl, (refl, (refl, (refl, (refl, (refl, (refl, tt)))))));
  members = members;
  decode_fields-marshal = λ r timestamp printable h.
      let same : text (format r.timestamp) ≡ timestamp = cc in
      subst
        (λ s.
          decode_fields (fields r.cluster_id r.data_gatherer s r.content r.schema_version) ≡ ok r)
        same (rw (parse-format r.timestamp printable) refl);
  decode_oidc-marshal =
      λ d raw kept h. let same : oidc d ≡ raw = cc in subst (λ r. decode_oidc r ≡ ok d) same refl;
  decode_discovery-marshal = λ d raw h.
      let same : discovery d ≡ raw = cc in subst (λ r. decode_discovery r ≡ ok d) same refl;
  decode_items-marshal = decode_items-marshal;
  decode_resource-live = λ u raw object h.
      let same : resource u "" ≡ raw = cc in subst (λ r. decode_resource r ≡ ok (u, 0)) same refl;
  decode_resource-deleted = λ u t raw object printable h.
      let same : resource u (format t) ≡ raw = cc in decode_resource-deleted u t raw printable same;
  oidc-strict = oidc-strict;
  discovery-strict = discovery-strict;
  members-items = members-items;
  members-discovery = λ d raw h.
      let same : discovery d ≡ raw = cc in subst (λ r. members r ≡ discovery_names) same refl;
  members-oidc = λ d raw kept h e.
      let same : oidc d ≡ raw = cc in members-oidc d (subst (λ r. members r ≡ []) (sym same) e);
  members-empty = members-empty;
}

abbrev pods : DataReading (Data String String String)
pods = record {
  cluster_id = "c1";
  data_gatherer = "k8s/pods";
  timestamp = 1000000000;
  content = Data.dynamic (
      some (record { resource = "pod"; deleted_at = 0 })
      ∷ none
      ∷ some (record { resource = "old"; deleted_at = 1000000000 })
      ∷ []);
  schema_version = "v2.0.0";
}

abbrev pods_tree : Tree
pods_tree =
    fields "c1" "k8s/pods" (text "0001-01-01T00:00:01Z")
      (item (resource "pod" "") (nil_item (item (resource "old" "0001-01-01T00:00:01Z") no_items)))
      "v2.0.0"

reading_tests :
    (marshal_reading json pods ≡ ok pods_tree)
    × (unmarshal_reading json (
          fields "" "k8s/oidc"
            (text "")
            (oidc
              (record { oidc_config = none; oidc_config_error = ""; jwks = none; jwks_error = "" }))
            "")
        ≡ err (ReadingError.empty_data "k8s/oidc"))
    × (unmarshal_reading json (fields "" "g" (text "") (text "[]") "")
        ≡ err (ReadingError.unknown_type "g"))
    × (unmarshal_reading json no_items ≡ err (ReadingError.not_parsed "no reading"))
unfolding marshal_reading unmarshal_reading
reading_tests = (refl, refl, refl, refl)

unmarshal_reading-marshal_example : unmarshal_reading json pods_tree ≡ ok pods
unmarshal_reading-marshal_example =
    unmarshal_reading-marshal json laws pods pods_tree (inr refl)
      ((tt, inl refl), (tt, ((tt, inr (inr refl)), tt))) reading_tests.0
