-- ===== src/Agent/Config/Gatherers.antt =====
-- pkg/agent/config.go: the decoding of a gatherer's section by its kind, over package yaml.
use jetstack_secure.Prelude.{
  String, ◌≡◌, refl, Option, none, some, List, [], ◌∷◌, ◌==◌, is_some, arith, ◌∙◌, if◌then◌else◌,
}
use jetstack_secure.Prelude.Results.{Result, ok, err, is_ok}
use jetstack_secure.Prelude.Lists.{any}

-- The types of configuration.
pub data ConfigKind : Type 0 where
  dynamic_kind discovery_kind oidc_kind local_kind dummy_kind : ConfigKind

-- `yaml.Marshal`, and `yaml.Unmarshal` into a new configuration of a type, with its error, or nil: what it
-- filled in before an error stays. `empty` is the new configuration.
pub record Yaml : Type 1 where
  pub Raw : Type 0
  pub Settings : Type 0
  pub marshal : Raw → Result String String
  pub unmarshal : ConfigKind → String → Option String × Settings
  pub empty : ConfigKind → Settings

unfoldable pub config_kind : String → Option ConfigKind
config_kind kind =
    if kind == "k8s"
    then some ConfigKind.dynamic_kind
    else if kind == "k8s-dynamic"
    then some ConfigKind.dynamic_kind
    else if kind == "k8s-discovery"
    then some ConfigKind.discovery_kind
    else if kind == "oidc"
    then some ConfigKind.oidc_kind
    else if kind == "local"
    then some ConfigKind.local_kind
    else if kind == "dummy"
    then some ConfigKind.dummy_kind
    else none

module _ (yaml : Yaml) where
  -- The fields of a section that are decoded first.
  pub record Section : Type 0 where
    pub kind : String
    pub name : String
    pub data_path : String
    pub raw_config : yaml.Raw

  pub record Decoded : Type 0 where
    pub kind : String
    pub name : String
    pub data_path : String
    pub config : yaml.Settings

  -- The configuration that is left; the errors are not reported.
  unfoldable pub re_marshal : yaml.Raw → ConfigKind → yaml.Settings
  re_marshal raw kind = elim (yaml.marshal raw) [
    | err e ↦ yaml.empty kind
    | ok bytes ↦ (yaml.unmarshal kind bytes).1
  ]

  unfoldable pub decode_as : Section → Option ConfigKind → Result String Decoded
  unfolding re_marshal
  decode_as aux none = err "cannot parse data-gatherer configuration, kind is not supported"
  decode_as aux (some kind) = ok (record {
    kind = aux.kind;
    name = aux.name;
    data_path = aux.data_path;
    config = re_marshal aux.raw_config kind;
  })

  unfoldable pub unmarshal_yaml : Result String Section → Result String Decoded
  unfolding config_kind decode_as
  unmarshal_yaml (err e) = err e
  unmarshal_yaml (ok aux) = decode_as aux (config_kind aux.kind)

-- The kinds that the configuration file may name.
abbrev supported_kinds : List String
supported_kinds = "k8s" ∷ "k8s-dynamic" ∷ "k8s-discovery" ∷ "oidc" ∷ "local" ∷ "dummy" ∷ []

config_kind-is_some :
    (kind : String) → is_some (config_kind kind) ≡ any (λ k. kind == k) supported_kinds
unfolding config_kind
config_kind-is_some kind = ground arith

decode_as-is_some :
    (yaml : Yaml) (aux : Section yaml) (kind : Option ConfigKind)
    → is_ok (decode_as yaml aux kind) ≡ is_some kind
unfolding decode_as
decode_as-is_some yaml aux none = refl
decode_as-is_some yaml aux (some kind) = refl

-- A section is decoded exactly if it can be read and its kind is one of these, whatever its configuration
-- is: one that cannot be decoded is not an error.
unmarshal_yaml-is_ok :
    (yaml : Yaml) (aux : Section yaml)
    → is_ok (unmarshal_yaml yaml (ok aux)) ≡ any (λ k. aux.kind == k) supported_kinds
unfolding unmarshal_yaml
unmarshal_yaml-is_ok yaml aux =
    decode_as-is_some yaml aux (config_kind aux.kind) ∙ config_kind-is_some aux.kind
