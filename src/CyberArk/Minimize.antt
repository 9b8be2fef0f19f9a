-- ===== src/CyberArk/Minimize.antt =====
-- pkg/client/client_cyberark.go: `minimizeSnapshot`, which leaves the TLS secrets without a client
-- certificate out of the snapshot. A value of an unstructured object is a JSON value, so that the case
-- of a `[]byte` under `tls.crt` does not occur. Logging is left out.
pub mod Pem
pub mod Excluded
use jetstack_secure.Prelude.{
  ℕ, zero, suc, ◌+◌, ◌<◌, String, ◌≡◌, Bool, true, false, not, ◌&&◌, ◌||◌, Option, none, some, List,
  [], ◌∷◌, ◌==◌, is_set, if◌then◌else◌,
}
use jetstack_secure.Prelude.Results.{Result, ok, err}
use jetstack_secure.Prelude.Lists.{filter, any}
use jetstack_secure.K8sDynamic.Values.{Value, text, Fields, FieldPath, lookup}
use jetstack_secure.K8sDynamic.Resources.{Resource, unstructured, typed, foreign}
use jetstack_secure.CyberArk.Snapshot.{Snapshot}

-- `pem.Block`.
pub record Block : Type 0 where
  pub kind : String
  pub bytes : String

-- `x509.ExtKeyUsage`: client authentication, or another.
pub data ExtKeyUsage : Type 0 where
  client_auth : ExtKeyUsage
  other_usage : ℕ → ExtKeyUsage

-- The parts of `x509.Certificate` that are read.
pub record Certificate : Type 0 where
  pub is_ca : Bool
  pub ext_key_usage : List ExtKeyUsage

-- The decoders of the standard library, and the accessors of package `unstructured`.
pub record Decoders : Type 0 where
  pub get_kind : Fields → String
  pub get_api_version : Fields → String
  -- `unstructured.NestedMap` and `NestedString`.
  pub nested_map : Fields → FieldPath → Result String (Option Fields)
  pub nested_string : Fields → FieldPath → Result String (Option String)
  pub decode_base64 : String → Option String
  -- `pem.Decode`: the next block, and the rest of the input after it, which is shorter.
  pub decode_pem : String → Option (Block × String)
  pub size : String → ℕ
  pub decode_pem-shorter :
      (input : String) (block : Block) (rest : String)
      → decode_pem input ≡ some (block, rest)
      → size rest < size input
  pub parse_certificate : String → Option Certificate

unfoldable pub is_client_auth : ExtKeyUsage → Bool
is_client_auth ExtKeyUsage.client_auth = true
is_client_auth (ExtKeyUsage.other_usage n) = false

-- A nil certificate is `none`.
unfoldable pub is_client_certificate : Option Certificate → Bool
unfolding is_client_auth
is_client_certificate none = false
is_client_certificate (some c) = if c.is_ca then false else any is_client_auth c.ext_key_usage

module _ (decoders : Decoders) where
  open decoders use {decode_pem, size, parse_certificate, decode_base64}

  -- The loop of `searchPEM`, on fuel.
  unfoldable pub search_blocks : ℕ → (Block → Bool) → String → Bool
  search_blocks zero visitor input = false
  search_blocks (suc n) visitor input = elim (decode_pem input) [
    | none ↦ false
    | some (block, rest) ↦ visitor block || search_blocks n visitor rest
  ]

  -- A nil visitor is `none`. Each round shortens the input.
  unfoldable pub search_pem : String → Option (Block → Bool) → Bool
  unfolding search_blocks
  search_pem input none = false
  search_pem input (some visitor) = search_blocks (size input + 1) visitor input

  -- The visitor of `isExcludableTLSSecret`.
  unfoldable pub is_client_block : Block → Bool
  unfolding is_client_certificate
  is_client_block block =
      if not (block.kind == "CERTIFICATE") || block.bytes == ""
      then false
      else (elim (parse_certificate block.bytes) [
        | none ↦ false
        | some c ↦ is_client_certificate (some c)
      ])

  unfoldable pub is_excludable_pem : Option String → Bool
  unfolding search_pem is_client_block
  is_excludable_pem none = true
  is_excludable_pem (some input) = not (search_pem input (some is_client_block))

  unfoldable pub is_excludable_tls_secret : Fields → Bool
  unfolding is_excludable_pem
  is_excludable_tls_secret m = elim (lookup "tls.crt" m) [
    | none ↦ true
    | some (text v) ↦ is_excludable_pem (decode_base64 v)
    | some v ↦ true
  ]

  -- `isExcludableSecret`, after the kind and the API version: the data, then the type.
  unfoldable pub is_excludable_data :
      Result String (Option Fields) → Result String (Option String) → Bool
  unfolding is_excludable_tls_secret
  is_excludable_data (ok (some m)) (ok (some secret_type)) =
      if not (secret_type == "kubernetes.io/tls") then false else is_excludable_tls_secret m
  is_excludable_data _ _ = false

  unfoldable pub is_excludable_secret : Resource → Bool
  unfolding is_excludable_data
  is_excludable_secret (unstructured o) =
      if not (decoders.get_kind o == "Secret") || not (decoders.get_api_version o == "v1")
      then false
      else is_excludable_data (decoders.nested_map o ("data" ∷ []))
          (decoders.nested_string o ("type" ∷ []))
  is_excludable_secret (typed t) = false
  is_excludable_secret (foreign s) = false

  unfoldable pub minimize_snapshot : Snapshot → Snapshot
  unfolding is_excludable_secret
  minimize_snapshot s = record s {
    secrets = filter (λ secret. not (is_excludable_secret secret)) s.secrets;
  }
