-- ===== src/Api/Json/Laws.antt =====
-- Package encoding/json and the layout of times, as far as the round trip rests on them.
use mathlib.Core.List.{Memᴰ}
use jetstack_secure.Prelude.{ℕ, String, ◌≡◌, true, Option, none, List, [], ◌∷◌}
use jetstack_secure.Prelude.Results.{ok}
use jetstack_secure.Prelude.Lists.{All}
use jetstack_secure.Gatherers.Oidc.{OidcDiscoveryData}
use jetstack_secure.Gatherers.Discovery.{DiscoveryData}
use jetstack_secure.Api.Json.{ReadingFields, Json, is_empty_data}

-- The names of the fields, as the tags give them.
abbrev pub oidc_names : List String
oidc_names = "openid_configuration" ∷ "openid_configuration_error" ∷ "jwks" ∷ "jwks_error" ∷ []

abbrev pub discovery_names : List String
discovery_names = "cluster_id" ∷ "server_version" ∷ []

-- Neither document, and no error in its place.
abbrev pub IsBlank : {J : Type 0} → OidcDiscoveryData J → Type 0
IsBlank d =
    (d.oidc_config ≡ none) × (d.oidc_config_error ≡ "") × (d.jwks ≡ none) × (d.jwks_error ≡ "")

-- What package encoding/json promises of these types. `IsPrintable` is of whole seconds in UTC, `IsKept` of
-- data that JSON loses nothing of, and `IsObject` of objects that have a kind.
pub record Laws {J V U : Type 0} (json : Json J V U) : Type 1 where
  pub IsPrintable : ℕ → Type 0
  pub IsKept : OidcDiscoveryData J → Type 0
  pub IsObject : U → Type 0
  -- Names that differ only in their case are the same.
  pub fold : String → String
  pub fold_tags : All (λ n. fold n ≡ n) ("items" ∷ "cluster_id" ∷ "server_version" ∷ oidc_names)
  -- The names of the members of an object.
  pub members : json.Raw → List String
  pub decode_fields-marshal :
      (r : ReadingFields ℕ json.Raw) (timestamp : json.Raw)
      → IsPrintable r.timestamp
      → json.marshal_text (json.format r.timestamp) ≡ ok timestamp
      → json.decode_fields (
          json.marshal_fields (record {
            cluster_id = r.cluster_id;
            data_gatherer = r.data_gatherer;
            timestamp = timestamp;
            content = r.content;
            schema_version = r.schema_version;
          }))
        ≡ ok r
  pub decode_oidc-marshal :
      (d : OidcDiscoveryData J) (raw : json.Raw)
      → IsKept d
      → json.marshal_oidc d ≡ ok raw
      → json.decode_oidc raw ≡ ok d
  pub decode_discovery-marshal :
      (d : DiscoveryData V) (raw : json.Raw)
      → json.marshal_discovery d ≡ ok raw
      → json.decode_discovery raw ≡ ok d
  pub decode_items-marshal :
      (raws : List (Option json.Raw)) → json.decode_items (json.marshal_items raws) ≡ ok raws
  -- Without the field, the time is zero.
  pub decode_resource-live :
      (u : U) (raw : json.Raw)
      → IsObject u
      → json.marshal_resource u "" ≡ ok raw
      → json.decode_resource raw ≡ ok (u, 0)
  pub decode_resource-deleted :
      (u : U) (t : ℕ) (raw : json.Raw)
      → IsObject u
      → IsPrintable t
      → json.marshal_resource u (json.format t) ≡ ok raw
      → json.decode_resource raw ≡ ok (u, t)
  -- Unknown fields are disallowed.
  pub oidc-strict :
      (raw : json.Raw) (d : OidcDiscoveryData J)
      → json.decode_oidc raw ≡ ok d
      → (k : String) → Memᴰ k (members raw)
      → (n : String) × Memᴰ n oidc_names × (fold k ≡ fold n)
  pub discovery-strict :
      (raw : json.Raw) (d : DiscoveryData V)
      → json.decode_discovery raw ≡ ok d
      → (k : String) → Memᴰ k (members raw)
      → (n : String) × Memᴰ n discovery_names × (fold k ≡ fold n)
  pub members-items :
      (raws : List (Option json.Raw)) → members (json.marshal_items raws) ≡ "items" ∷ []
  pub members-discovery :
      (d : DiscoveryData V) (raw : json.Raw)
      → json.marshal_discovery d ≡ ok raw
      → members raw ≡ discovery_names
  -- A field is omitted only where it is empty.
  pub members-oidc :
      (d : OidcDiscoveryData J) (raw : json.Raw)
      → IsKept d
      → json.marshal_oidc d ≡ ok raw
      → members raw ≡ []
      → IsBlank d
  pub members-empty : (raw : json.Raw) → is_empty_data json raw ≡ true → members raw ≡ []
