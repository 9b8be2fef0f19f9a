-- ===== src/CyberArk/Envelope.antt =====
-- internal/envelope/rsa: `Encrypt` of the encryptor, which fetches a key for each of its calls, and the
-- keys that are read from PEM.
pub mod Sealed
use jetstack_secure.Prelude.{ℕ, String, Option, none, some, ◌==◌, if◌then◌else◌}
use jetstack_secure.Prelude.Results.{Result, ok, err, ◌>>=◌, map_err, or_error}
use jetstack_secure.K8sDynamic.Redaction.{EncryptedData}
use jetstack_secure.CyberArk.Identity.{Server}
use jetstack_secure.CyberArk.KeyFetch.{
  RsaKey, PublicKey, FetchError, KeyServer, KeyClient, fetch_key,
}

-- Package jwe: the headers with an id of a key, and the compact form of data that is encrypted to a key
-- with RSA-OAEP-256 and A256GCM.
pub record Jwe : Type 1 where
  pub Headers : Type 0
  pub set_kid : String → Result String Headers
  pub encrypt : String → RsaKey → Headers → Result String String

abbrev pub encryption_type : String
encryption_type = "JWE-RSA"

pub data EncryptError : Type 0 where
  empty_data : EncryptError
  no_key : FetchError → EncryptError
  key_id_header encryption : String → EncryptError

-- What follows the fetch of the key.
unfoldable pub encrypt_to : Jwe → String → PublicKey → Result EncryptError EncryptedData
encrypt_to jwe content key = do
  headers ← map_err EncryptError.key_id_header (jwe.set_kid key.key_id)
  encrypted ← map_err EncryptError.encryption (jwe.encrypt content key.key headers)
  ok (record { payload = encrypted; kind = encryption_type })

unfoldable pub encrypt_fetched :
    Jwe
    → String
    → Result FetchError PublicKey × KeyClient
    → Result EncryptError EncryptedData × KeyClient
unfolding encrypt_to
encrypt_fetched jwe content (fetched, c) =
    (map_err EncryptError.no_key fetched >>= λ key. encrypt_to jwe content key, c)

-- `Encrypt`, with the instants of `FetchKey`.
unfoldable pub encrypt :
    Jwe
    → Server
    → KeyServer
    → ℕ
    → ℕ
    → ℕ
    → String
    → KeyClient
    → Result EncryptError EncryptedData × KeyClient
unfolding encrypt_fetched fetch_key
encrypt jwe server keys now logged_in done content c =
    if content == ""
    then (err EncryptError.empty_data, c)
    else encrypt_fetched jwe content (fetch_key server keys now logged_in done c)

-- `pem.Decode`.
pub record PemBlock : Type 0 where
  pub kind : String
  pub bytes : String

-- Packages pem, x509 and os: a PKIX key is an RSA key, or a key of another type.
pub record KeyParsers : Type 0 where
  pub decode : String → Option PemBlock
  pub parse_pkix_public_key : String → Result String (Option RsaKey)
  pub parse_pkcs1_public_key : String → Result String RsaKey
  pub read_file : String → Result String String

pub data PemError : Type 0 where
  no_block not_rsa : PemError
  pkix pkcs1 unsupported unreadable : String → PemError

unfoldable pub parse_block : KeyParsers → PemBlock → Result PemError RsaKey
parse_block parsers block =
    if block.kind == "PUBLIC KEY"
    then (map_err PemError.pkix (parsers.parse_pkix_public_key block.bytes) >>= λ key.
        or_error key PemError.not_rsa)
    else if block.kind == "RSA PUBLIC KEY"
    then map_err PemError.pkcs1 (parsers.parse_pkcs1_public_key block.bytes)
    else err (PemError.unsupported block.kind)

unfoldable pub load_public_key_from_pem : KeyParsers → String → Result PemError RsaKey
unfolding parse_block
load_public_key_from_pem parsers pem_bytes =
    or_error (parsers.decode pem_bytes) PemError.no_block >>= λ block. parse_block parsers block

unfoldable pub load_public_key_from_pem_file : KeyParsers → String → Result PemError RsaKey
unfolding load_public_key_from_pem
load_public_key_from_pem_file parsers path =
    map_err PemError.unreadable (parsers.read_file path) >>= λ pem_bytes.
    load_public_key_from_pem parsers pem_bytes
