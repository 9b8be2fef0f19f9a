-- ===== src/CyberArk/Tests.antt =====
-- A snapshot with a TLS secret, over decoders of a few fixed texts.
use mathlib.Core.List.{Memᴰ}
use jetstack_secure.Prelude.{
  List, ℕ, ◌<◌, String, ◌≡◌, ◌↔◌, refl, true, false, Option, none, some, [], ◌∷◌, arith, ◌==◌,
  if◌then◌else◌, Bool-cases, inl, inr,
}
use jetstack_secure.Prelude.Results.{ok, err}
use jetstack_secure.K8sDynamic.Values.{Value, text, obj, Fields, end, field, lookup}
use jetstack_secure.K8sDynamic.Resources.{unstructured}
use jetstack_secure.CyberArk.Snapshot.{
  Snapshot, ReadItem, ReadingData, DataReading, Extractors, extract_into, extract_resources,
  convert_data_readings, names,
}
use jetstack_secure.CyberArk.Snapshot.Complete.{Extracts, IsRead, convert_data_readings_complete}
use jetstack_secure.CyberArk.Minimize.{
  Decoders, Block, ExtKeyUsage, search_pem, is_client_block, is_excludable_secret,
  minimize_snapshot,
}
use jetstack_secure.CyberArk.Minimize.Pem.{HasVisited, search_pem_iff}
use jetstack_secure.CyberArk.Minimize.Excluded.{
  HasClientCertificate, IsTlsSecret, is_excludable_secret_iff,
}
use jetstack_secure.CyberArk.Publish.{Options, base_snapshot_from_options}

computes : Unit {0}
unfolding convert_data_readings extract_into extract_resources minimize_snapshot search_pem lookup
    base_snapshot_from_options
computes = tt

abbrev certificate : Block
certificate = record { kind = "CERTIFICATE"; bytes = "client" }

-- One block, then nothing.
abbrev pem_size : String → ℕ
pem_size s = if s == "PEM" then 1 else 0

abbrev next_block : String → Option (Block × String)
next_block s = if s == "PEM" then some (certificate, "") else none

pub next_block-shorter :
    (input : String) (block : Block) (rest : String)
    → next_block input ≡ some (block, rest)
    → pem_size rest < pem_size input
next_block-shorter input block rest h = elim (Bool-cases (input == "PEM")) [
  | inl e ↦ let h' = rw e at h in let same : "" ≡ rest = cc in rw (e, ← same) (omega arith)
  | inr e ↦ let h' = rw e at h in cc
]

abbrev text_of : Option Value → String
text_of (some (text s)) = s
text_of _ = ""

unfoldable pub small_decoders : Decoders
unfolding lookup
small_decoders = record {
  get_kind = λ o. text_of (lookup "kind" o);
  get_api_version = λ o. text_of (lookup "apiVersion" o);
  nested_map = λ o p. elim (lookup "data" o) [
    | some (obj m) ↦ ok (some m)
    | none ↦ ok none
    | some _ ↦ err "not a map"
  ];
  nested_string = λ o p. elim (lookup "type" o) [
    | some (text s) ↦ ok (some s)
    | none ↦ ok none
    | some _ ↦ err "not a string"
  ];
  decode_base64 = λ s. if s == "UEVN" then some "PEM" else none;
  decode_pem = next_block;
  size = pem_size;
  decode_pem-shorter = next_block-shorter;
  parse_certificate = λ s.
      if s == "client"
      then some (record {
        is_ca = false;
        ext_key_usage = ExtKeyUsage.other_usage 1 ∷ ExtKeyUsage.client_auth ∷ [];
      })
      else none;
}

abbrev tls_secret : String → Fields
tls_secret crt = field "apiVersion" (text "v1") (
    field "kind" (text "Secret") (
      field "type" (text "kubernetes.io/tls")
        (field "data" (obj (field "tls.crt" (text crt) end)) end)))

-- A certificate of a client is kept; one that does not decode is not.
excludable_tests :
    (is_excludable_secret small_decoders (unstructured (tls_secret "UEVN")) ≡ false)
    × (is_excludable_secret small_decoders (unstructured (tls_secret "!")) ≡ true)
unfolding computes small_decoders is_excludable_secret
excludable_tests = (refl, refl)

search_pem_iff_example :
    (search_pem small_decoders "PEM" (some (is_client_block small_decoders)) ≡ true)
    ↔ HasVisited small_decoders (is_client_block small_decoders) "PEM"
search_pem_iff_example = search_pem_iff small_decoders (is_client_block small_decoders) "PEM"

is_excludable_secret_iff_example :
    (is_excludable_secret small_decoders (unstructured (tls_secret "!")) ≡ true) ↔ (
      (m : Fields) × IsTlsSecret small_decoders (tls_secret "!") m
      × ¬ HasClientCertificate small_decoders m)
is_excludable_secret_iff_example = is_excludable_secret_iff small_decoders (tls_secret "!")

abbrev live : ReadItem
live = record { resource = unstructured (tls_secret "UEVN"); deleted_at = 0 }

abbrev deleted : ReadItem
deleted = record { resource = unstructured (tls_secret "!"); deleted_at = 3 }

abbrev secrets_only : Extractors
secrets_only = ("ark/secrets", extract_into (λ s found. record s { secrets = found })) ∷ []

abbrev secrets_reading : DataReading
secrets_reading = record {
  data_gatherer = "ark/secrets";
  contents = ReadingData.dynamic (deleted ∷ live ∷ []);
}

unfoldable empty_snapshot : Snapshot
unfolding base_snapshot_from_options
empty_snapshot = base_snapshot_from_options "v1" (record {
  org_id = "";
  cluster_id = "";
  cluster_name = "web";
  cluster_description = "";
  claimable_certs = false;
})

unfoldable full_snapshot : Snapshot
unfolding empty_snapshot
full_snapshot = record empty_snapshot { secrets = live.resource ∷ [] }

convert_data_readings_complete_example :
    Extracts secrets_only (secrets_reading ∷ []) empty_snapshot full_snapshot
    × ((k : String) → Memᴰ k (names secrets_only) → IsRead (secrets_reading ∷ []) k)
unfolding computes full_snapshot
convert_data_readings_complete_example =
    convert_data_readings_complete secrets_only (secrets_reading ∷ []) empty_snapshot full_snapshot
      refl

abbrev nothing_of : String → DataReading
nothing_of name = record { data_gatherer = name; contents = ReadingData.dynamic [] }

abbrev pub all_readings : List DataReading
all_readings =
    record { data_gatherer = "ark/oidc"; contents = ReadingData.oidc end "" end "no keys" }
    ∷ record {
      data_gatherer = "ark/discovery";
      contents = ReadingData.discovery "c1" (some "v1.30");
    }
    ∷ secrets_reading
    ∷ nothing_of "ark/serviceaccounts"
    ∷ nothing_of "ark/roles"
    ∷ nothing_of "ark/clusterroles"
    ∷ nothing_of "ark/rolebindings"
    ∷ nothing_of "ark/clusterrolebindings"
    ∷ nothing_of "ark/jobs"
    ∷ nothing_of "ark/cronjobs"
    ∷ nothing_of "ark/deployments"
    ∷ nothing_of "ark/statefulsets"
    ∷ nothing_of "ark/daemonsets"
    ∷ nothing_of "ark/pods"
    ∷ nothing_of "ark/configmaps"
    ∷ nothing_of "ark/esoexternalsecrets"
    ∷ nothing_of "ark/esosecretstores"
    ∷ nothing_of "ark/esoclusterexternalsecrets"
    ∷ nothing_of "ark/esoclustersecretstores"
    ∷ nothing_of "ark/secretproviderclasses"
    ∷ nothing_of "ark/secretproviderclasspodstatuses"
    ∷ []

abbrev pub options : Options
options = record {
  org_id = "";
  cluster_id = "";
  cluster_name = "web";
  cluster_description = "";
  claimable_certs = false;
}

unfoldable pub uploaded_snapshot : Snapshot
unfolding full_snapshot
uploaded_snapshot = record full_snapshot {
  cluster_id = "c1";
  k8s_version = "v1.30";
  jwks_error = "no keys";
}
