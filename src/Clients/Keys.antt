-- ===== src/Clients/Keys.antt =====
-- pkg/client/util.go: the private key of a service account, and the method that signs with it.
-- mod Suited
use jetstack_secure.Prelude.{ℕ, String, Option, none, some, eqb, if◌then◌else◌}
use jetstack_secure.Prelude.Results.{Result, ok, err, ◌>>=◌}

-- A key, with the size of its modulus or curve in bits; `other_key` is of another type.
pub data PrivateKey : Type 0 where
  rsa_key ecdsa_key : ℕ → String → PrivateKey
  ed25519_key other_key : String → PrivateKey

-- The methods of package jwt.
pub data SigningMethod : Type 0 where
  rs256 rs384 rs512 es256 es384 es512 ed_dsa : SigningMethod

-- The file, package pem and the parsers of package x509, which fail with `none`. The first parser gives
-- RSA keys alone, and the last ECDSA keys, as a size and a key.
pub record KeyParsers : Type 1 where
  pub Der : Type 0
  pub read_file : String → Result String String
  pub decode_pem : String → Option Der
  pub parse_pkcs1 : Der → Option (ℕ × String)
  pub parse_pkcs8 : Der → Option PrivateKey
  pub parse_ec : Der → Result String (ℕ × String)

pub data KeyError : Type 0 where
  fetching decoding parsing_ec : String → KeyError
  unknown_key_type unsupported_key_type : KeyError

unfoldable pub of_known_type : PrivateKey → Result KeyError PrivateKey
of_known_type (PrivateKey.other_key name) = err KeyError.unknown_key_type
of_known_type key = ok key

unfoldable pub rsa_method : ℕ → SigningMethod
rsa_method bits =
    if eqb bits 2048
    then SigningMethod.rs256
    else if eqb bits 3072
    then SigningMethod.rs384
    else if eqb bits 4096
    then SigningMethod.rs512
    else SigningMethod.rs256

unfoldable pub ecdsa_method : ℕ → SigningMethod
ecdsa_method bits =
    if eqb bits 256
    then SigningMethod.es256
    else if eqb bits 384
    then SigningMethod.es384
    else if eqb bits 521
    then SigningMethod.es512
    else SigningMethod.es256

unfoldable pub signing_method : PrivateKey → Result KeyError SigningMethod
unfolding rsa_method ecdsa_method
signing_method (PrivateKey.rsa_key bits name) = ok (rsa_method bits)
signing_method (PrivateKey.ecdsa_key bits name) = ok (ecdsa_method bits)
signing_method (PrivateKey.ed25519_key name) = ok SigningMethod.ed_dsa
signing_method (PrivateKey.other_key name) = err KeyError.unsupported_key_type

module _ (parsers : KeyParsers) where
  -- The parsers in their order.
  unfoldable pub parse_der : parsers.Der → Result KeyError PrivateKey
  unfolding of_known_type
  parse_der der = elim (parsers.parse_pkcs1 der) [
    | some (bits, key) ↦ ok (PrivateKey.rsa_key bits key)
    | none ↦ elim (parsers.parse_pkcs8 der) [
      | some key ↦ of_known_type key
      | none ↦ elim (parsers.parse_ec der) [
        | ok (bits, key) ↦ ok (PrivateKey.ecdsa_key bits key)
        | err e ↦ err (KeyError.parsing_ec e)
      ]
    ]
  ]

  unfoldable pub parse_private_key_from_pem_file : String → Result KeyError PrivateKey
  unfolding parse_der
  parse_private_key_from_pem_file path = elim (parsers.read_file path) [
    | err e ↦ err (KeyError.fetching e)
    | ok bytes ↦ elim (parsers.decode_pem bytes) [
      | none ↦ err (KeyError.decoding path)
      | some der ↦ parse_der der
    ]
  ]

  unfoldable pub parse_private_key_and_extract_signing_method :
      String → Result KeyError (PrivateKey × SigningMethod)
  unfolding parse_private_key_from_pem_file signing_method
  parse_private_key_and_extract_signing_method path = do
    key ← parse_private_key_from_pem_file path
    signing ← signing_method key
    ok (key, signing)
