-- ===== src/CyberArk/LoginTests.antt =====
-- Logins, key fetches and service discovery against small servers.
use jetstack_secure.Prelude.{
  ℕ, ◌≤◌, String, ◌≡◌, refl, true, none, some, List, [], ◌∷◌, arith, ◌⊎◌, is_set, inl,
}
use jetstack_secure.Prelude.Results.{err, Result, ok}
use jetstack_secure.CyberArk.Identity.{
  Server, Client, Mechanism, IdentityError, HttpResponse, login_username_password, is_fresh,
}
use jetstack_secure.CyberArk.Identity.Login.{
  IsGranted, login_username_password_ok, login_username_password_again,
}
use jetstack_secure.CyberArk.KeyFetch.{
  RawKey, Jwk, PublicKey, KeyServer, KeyClient, choose_key, fetch_key, min_rsa_key_size,
}
use jetstack_secure.CyberArk.KeyFetch.Strong.{IsSafe, fetch_key-IsSafe}
use jetstack_secure.K8sDynamic.Redaction.{EncryptedData}
use jetstack_secure.CyberArk.Envelope.{
  Jwe, EncryptError, KeyParsers, PemError, encrypt, load_public_key_from_pem,
}
use jetstack_secure.CyberArk.Envelope.Sealed.{IsSealed, encrypt-IsSealed}
use jetstack_secure.CyberArk.ServiceDiscovery.{
  Service, DiscoveryResponse, Services, DiscoveryServer, DiscoveryClient, endpoint_at,
  cached_services, discover_services,
}
use jetstack_secure.CyberArk.ServiceDiscovery.Found.{IsOffered, discover_services_ok}

computes : Unit {0}
unfolding login_username_password fetch_key choose_key discover_services
computes = tt

abbrev pub password : List ℕ
password = 112 ∷ 119 ∷ []

abbrev answer_with : {T : Type 0} → T → Result String (HttpResponse T)
answer_with result = ok (record {
  status_code = 200;
  body = ok (record { success = true; result = result; message = ""; error_id = "" });
})

abbrev up : Mechanism
up = record { name = "UP"; enrolled = true; mechanism_id = "m1" }

abbrev pub welcoming : Server
welcoming = record {
  start_authentication = λ request.
      answer_with
        (record { session_id = "s1"; challenges = (up ∷ []) ∷ []; summary = "NewPackage" });
  advance_authentication =
      λ request. answer_with (record { summary = "LoginSuccess"; token = "t1" });
}

-- A second mechanism is asked for.
abbrev cautious : Server
cautious = record welcoming {
  start_authentication = λ request.
      answer_with
        (record { session_id = "s1"; challenges = (up ∷ up ∷ []) ∷ []; summary = "NewPackage" });
}

abbrev stranger : Client
stranger = record {
  subdomain = "acme";
  token_cached = record { username = ""; token = "" };
  token_cached_time = 0;
}

abbrev ann : Client
ann = record stranger {
  token_cached = record { username = "ann"; token = "t1" };
  token_cached_time = 2000000000005;
}

login_tests :
    ((login_username_password welcoming 2000000000000 2000000000005 stranger "ann" password)
      ≡ ((none, ann), 0 ∷ 0 ∷ []))
    × ((login_username_password cautious 2000000000000 2000000000005 stranger "ann" password).0
        ≡ (some IdentityError.many_mechanisms, stranger))
unfolding computes
login_tests = (refl, refl)

login_username_password_ok_example :
    ((is_fresh stranger 2000000000000 "ann" ≡ true) × (ann ≡ stranger))
    ⊎ ((token : String) × IsGranted welcoming stranger "ann" password token
        × (ann ≡ record stranger {
          token_cached = record { username = "ann"; token = token };
          token_cached_time = 2000000000005;
        }))
unfolding computes
login_username_password_ok_example =
    login_username_password_ok welcoming 2000000000000 2000000000005 stranger "ann" password refl

login_username_password_again_example :
    (login_username_password cautious 2100000000000 2100000000005 ann "ann" []).0 ≡ (none, ann)
unfolding computes
login_username_password_again_example =
    login_username_password_again welcoming cautious 2000000000000 2000000000005 2100000000000
      2100000000005 stranger "ann" password [] refl refl

abbrev rsa_key : String → ℕ → Jwk
rsa_key kid bits = record {
  key_type = "RSA";
  raw_key = some (RawKey.rsa (record { bit_len = bits; modulus = kid }));
  key_id = some kid;
  algorithm = some "RSA-OAEP-256";
}

abbrev strong : PublicKey
strong = record { key_id = "k2"; key = record { bit_len = 4096; modulus = "k2" } }

abbrev keys : KeyServer
keys = record {
  discover_services = ok "https://api";
  new_request = λ api. ok api;
  send = λ location token. ok (200, "jwks");
  parse_keys = λ body. ok (rsa_key "k1" 1024 ∷ rsa_key "k2" 4096 ∷ []);
}

abbrev empty_client : KeyClient
empty_client = record {
  identity_client = stranger;
  username = "ann";
  secret = password;
  cached_key = record { key_id = ""; key = record { bit_len = 0; modulus = "" } };
  cached_key_time = 0;
}

fetch_test :
    (fetch_key welcoming keys 2000000000000 2000000000005 2000000000009 empty_client).0 ≡ ok strong
unfolding computes
fetch_test = refl

fetch_key-IsSafe_example :
    IsSafe (fetch_key welcoming keys 2000000000000 2000000000005 2000000000009 empty_client).1
    × ((key : PublicKey)
        → (fetch_key welcoming keys 2000000000000 2000000000005 2000000000009 empty_client).0
          ≡ ok key
        → min_rsa_key_size ≤ key.key.bit_len)
fetch_key-IsSafe_example =
    fetch_key-IsSafe welcoming keys 2000000000000 2000000000005 2000000000009 empty_client
      (omega arith) (inl refl)

abbrev jwe : Jwe
jwe = record {
  Headers = String;
  set_kid = λ kid. ok kid;
  encrypt = λ content key headers. ok "jwe";
}

encrypt_tests :
    ((encrypt jwe welcoming keys 2000000000000 2000000000005 2000000000009 "{}" empty_client).0
      ≡ ok (record { payload = "jwe"; kind = "JWE-RSA" }))
    × ((encrypt jwe welcoming keys 2000000000000 2000000000005 2000000000009 "" empty_client).0
        ≡ err EncryptError.empty_data)
unfolding computes encrypt
encrypt_tests = (refl, refl)

encrypt-IsSealed_example :
    IsSafe
      (encrypt jwe welcoming keys 2000000000000 2000000000005 2000000000009 "{}" empty_client).1
    × ((result : EncryptedData)
        → (encrypt jwe welcoming keys 2000000000000 2000000000005 2000000000009 "{}" empty_client).0
          ≡ ok result
        → IsSealed jwe
            (fetch_key welcoming keys 2000000000000 2000000000005 2000000000009 empty_client).0
            "{}"
            result)
encrypt-IsSealed_example =
    encrypt-IsSealed jwe welcoming keys 2000000000000 2000000000005 2000000000009 "{}" empty_client
      (omega arith) (inl refl)

abbrev key_parsers : KeyParsers
key_parsers = record {
  decode = λ pem. some (record { kind = pem; bytes = "key" });
  parse_pkix_public_key = λ bytes. ok none;
  parse_pkcs1_public_key = λ bytes. ok (record { bit_len = 2048; modulus = bytes });
  read_file = λ path. err "missing";
}

load_public_key_tests :
    (load_public_key_from_pem key_parsers "PUBLIC KEY" ≡ err PemError.not_rsa)
    × (load_public_key_from_pem key_parsers "RSA PUBLIC KEY"
        ≡ ok (record { bit_len = 2048; modulus = "key" }))
    × (load_public_key_from_pem key_parsers "CERTIFICATE"
        ≡ err (PemError.unsupported "CERTIFICATE"))
unfolding load_public_key_from_pem
load_public_key_tests = (refl, refl, refl)

abbrev pub identity_service : Service
identity_service = record {
  service_name = "identity_administration";
  service_subdomains = [];
  region = "";
  endpoints = record { is_active = true; kind = "main"; ui = ""; api = "https://id" } ∷ [];
}

abbrev response : DiscoveryResponse
response = record { tenant_id = "tenant"; services = identity_service ∷ [] }

abbrev directory : DiscoveryServer
directory subdomain = ok (200, ok response)

abbrev new_discovery : DiscoveryClient
new_discovery = record {
  subdomain = "acme";
  cached_response = none;
  cached_tenant_id = "";
  cached_response_time = 0;
}

abbrev found_services : Services
found_services = record { identity = endpoint_at "https://id"; discovery_context = endpoint_at "" }

discover_services_ok_example :
    ((cached_services new_discovery 5 ≡ some found_services)
      × ((discover_services directory 5 6 new_discovery).1 ≡ new_discovery))
    ⊎ ((r : DiscoveryResponse) × (directory "acme" ≡ ok (200, ok r))
        × ("tenant" ≡ r.tenant_id)
        × (is_set found_services.identity.api ≡ true)
        × IsOffered "identity_administration" r.services found_services.identity.api
        × ((discover_services directory 5 6 new_discovery).1 ≡ record new_discovery {
          cached_response = some found_services;
          cached_tenant_id = "tenant";
          cached_response_time = 6;
        }))
unfolding computes
discover_services_ok_example =
    discover_services_ok directory 5 6 new_discovery found_services "tenant" refl
