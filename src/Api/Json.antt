-- ===== src/Api/Json.antt =====
-- api/datareading.go and api/common.go: the JSON form of a reading. Package encoding/json, which calls the
-- methods below, and the layout of times are parameters. Instants are nanoseconds from Go's zero time.
pub mod Laws
pub mod RoundTrip
pub mod Tests
use jetstack_secure.Prelude.{
  ℕ, String, Bool, ◌||◌, Option, none, some, List, [], ◌∷◌, eqb, if◌then◌else◌,
}
use jetstack_secure.Prelude.Results.{Result, ok, err, ◌>>=◌, map_err, or_error}
use jetstack_secure.Api.{DataReading}
use jetstack_secure.Gatherers.Oidc.{OidcDiscoveryData}
use jetstack_secure.Gatherers.Discovery.{DiscoveryData}

-- `api.GatheredResource`, as it is sent; a resource may be nil.
pub record SentResource (U : Type 0) : Type 0 where
  pub resource : U
  pub deleted_at : ℕ

-- `DataReading.Data`: a pointer to one of the three types. The items are pointers, which may be nil.
pub data Data (J V U : Type 0) : Type 0 where
  oidc : OidcDiscoveryData J → Data J V U
  discovery : DiscoveryData V → Data J V U
  dynamic : List (Option (SentResource U)) → Data J V U

-- The fields of a reading in JSON, over the types of the time stamp and the data.
pub record ReadingFields (T D : Type 0) : Type 0 where
  pub cluster_id : String
  pub data_gatherer : String
  pub timestamp : T
  pub content : D
  pub schema_version : String

-- Package encoding/json on the types of package api, over the types of a JSON object, of `version.Info` and
-- of `unstructured.Unstructured`. `Raw` is the text of a value; the decoders disallow unknown fields.
pub record Json (J V U : Type 0) : Type 1 where
  pub Raw : Type 0
  -- `bytes.Equal`.
  pub is_text : Raw → String → Bool
  -- `Format(time.RFC3339)`.
  pub format : ℕ → String
  pub marshal_text : String → Result String Raw
  pub marshal_fields : ReadingFields Raw Raw → Raw
  pub decode_fields : Raw → Result String (ReadingFields ℕ Raw)
  pub marshal_oidc : OidcDiscoveryData J → Result String Raw
  pub decode_oidc : Raw → Result String (OidcDiscoveryData J)
  pub marshal_discovery : DiscoveryData V → Result String Raw
  pub decode_discovery : Raw → Result String (DiscoveryData V)
  -- The object with the items; nil is `null`.
  pub marshal_items : List (Option Raw) → Raw
  pub decode_items : Raw → Result String (List (Option Raw))
  -- The object with the resource and the text of `deleted_at`, which is omitted where it is empty.
  pub marshal_resource : U → String → Result String Raw
  pub decode_resource : Raw → Result String (U × ℕ)

pub data ReadingError : Type 0 where
  not_parsed : String → ReadingError
  -- The gatherer's name.
  empty_data unknown_type : String → ReadingError

module _ {J V U : Type 0} (json : Json J V U) where
  -- `Time.MarshalJSON`.
  unfoldable pub marshal_time : ℕ → Result String json.Raw
  marshal_time t = json.marshal_text (json.format t)

  -- `GatheredResource.MarshalJSON`.
  unfoldable pub marshal_gathered_resource : SentResource U → Result String json.Raw
  marshal_gathered_resource v =
      json.marshal_resource v.resource (if eqb v.deleted_at 0 then "" else json.format v.deleted_at)

  unfoldable pub marshal_item : Option (SentResource U) → Result String (Option json.Raw)
  unfolding marshal_gathered_resource
  marshal_item none = ok none
  marshal_item (some v) = marshal_gathered_resource v >>= λ raw. ok (some raw)

  unfoldable pub marshal_each :
      List (Option (SentResource U)) → Result String (List (Option json.Raw))
  unfolding marshal_item
  marshal_each [] = ok []
  marshal_each (v ∷ vs) = do raw ← marshal_item v; rest ← marshal_each vs; ok (raw ∷ rest)

  unfoldable pub marshal_data : Data J V U → Result String json.Raw
  unfolding marshal_each
  marshal_data (Data.oidc d) = json.marshal_oidc d
  marshal_data (Data.discovery d) = json.marshal_discovery d
  marshal_data (Data.dynamic items) = marshal_each items >>= λ raws. ok (json.marshal_items raws)

  -- `json.Marshal` of a reading.
  unfoldable pub marshal_reading : DataReading (Data J V U) → Result String json.Raw
  unfolding marshal_time marshal_data
  marshal_reading o = do
    timestamp ← marshal_time o.timestamp
    content ← marshal_data o.content
    ok (
        json.marshal_fields (record {
          cluster_id = o.cluster_id;
          data_gatherer = o.data_gatherer;
          timestamp = timestamp;
          content = content;
          schema_version = o.schema_version;
        }))

  -- `GatheredResource.UnmarshalJSON`.
  unfoldable pub unmarshal_gathered_resource : json.Raw → Result String (SentResource U)
  unmarshal_gathered_resource raw = do
    tmp ← json.decode_resource raw
    ok (record { resource = tmp.0; deleted_at = tmp.1 })

  unfoldable pub unmarshal_item : Option json.Raw → Result String (Option (SentResource U))
  unfolding unmarshal_gathered_resource
  unmarshal_item none = ok none
  unmarshal_item (some raw) = unmarshal_gathered_resource raw >>= λ v. ok (some v)

  unfoldable pub unmarshal_each :
      List (Option json.Raw) → Result String (List (Option (SentResource U)))
  unfolding unmarshal_item
  unmarshal_each [] = ok []
  unmarshal_each (raw ∷ raws) = do v ← unmarshal_item raw; rest ← unmarshal_each raws; ok (v ∷ rest)

  -- The decoding attempts, in their order.
  unfoldable pub data_types : List (json.Raw → Result String (Data J V U))
  unfolding unmarshal_each
  data_types =
      (λ raw. json.decode_oidc raw >>= λ d. ok (Data.oidc d))
      ∷ (λ raw. json.decode_discovery raw >>= λ d. ok (Data.discovery d))
      ∷ (λ raw. json.decode_items raw >>= λ raws.
          unmarshal_each raws >>= λ items. ok (Data.dynamic items))
      ∷ []

  -- The loop over the attempts.
  unfoldable pub decode_first :
      List (json.Raw → Result String (Data J V U)) → json.Raw → Option (Data J V U)
  decode_first [] raw = none
  decode_first (attempt ∷ attempts) raw =
      let later = decode_first attempts raw in elim (attempt raw) [ ok d ↦ some d | err e ↦ later ]

  unfoldable pub is_empty_data : json.Raw → Bool
  is_empty_data raw = json.is_text raw "" || (json.is_text raw "null" || json.is_text raw "{}")

  unfoldable pub unmarshal_data : String → json.Raw → Result ReadingError (Data J V U)
  unfolding is_empty_data decode_first data_types
  unmarshal_data data_gatherer raw =
      if is_empty_data raw
      then err (ReadingError.empty_data data_gatherer)
      else or_error (decode_first data_types raw) (ReadingError.unknown_type data_gatherer)

  -- `DataReading.UnmarshalJSON`, without what it leaves in the reading on an error.
  unfoldable pub unmarshal_reading : json.Raw → Result ReadingError (DataReading (Data J V U))
  unfolding unmarshal_data
  unmarshal_reading raw = do
    tmp ← map_err ReadingError.not_parsed (json.decode_fields raw)
    content ← unmarshal_data tmp.data_gatherer tmp.content
    ok (record {
      cluster_id = tmp.cluster_id;
      data_gatherer = tmp.data_gatherer;
      timestamp = tmp.timestamp;
      content = content;
      schema_version = tmp.schema_version;
    })
