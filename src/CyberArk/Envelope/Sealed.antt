-- ===== src/CyberArk/Envelope/Sealed.antt =====
-- What has been encrypted, and to which key.
use jetstack_secure.Prelude.{
  ℕ, ◌≤◌, String, ◌≡◌, ◌≢◌, true, refl, sym, ap, ◌∙◌, subst, Bool-cases, inl, inr, ◌==◌, eq_iff,
}
use jetstack_secure.Prelude.Results.{Result, ok, >>=-eq-ok, map_err, map_err_ok}
use jetstack_secure.K8sDynamic.Redaction.{EncryptedData}
use jetstack_secure.CyberArk.Identity.{Server, token_lifetime}
use jetstack_secure.CyberArk.KeyFetch.{
  PublicKey, FetchError, KeyServer, KeyClient, fetch_key, min_rsa_key_size,
}
use jetstack_secure.CyberArk.KeyFetch.Strong.{IsSafe, fetch_key-IsSafe}
use jetstack_secure.CyberArk.Envelope.{
  Jwe, EncryptError, encryption_type, encrypt_to, encrypt_fetched, encrypt,
}

-- The data was encrypted to a key that was fetched, under the id of this key, and the key is long enough.
pub record IsSealed (jwe : Jwe) (fetched : Result FetchError PublicKey) (content : String)
    (result : EncryptedData) : Type 0 where
  pub key : PublicKey
  pub headers : jwe.Headers
  pub is_fetched : fetched ≡ ok key
  pub has_id : jwe.set_kid key.key_id ≡ ok headers
  pub is_encrypted : jwe.encrypt content key.key headers ≡ ok result.payload
  pub has_type : result.kind ≡ encryption_type
  pub is_long : min_rsa_key_size ≤ key.key.bit_len
  pub has_content : content ≢ ""

encrypt_to-inv :
    (jwe : Jwe) (content : String) (key : PublicKey) (result : EncryptedData)
    → encrypt_to jwe content key ≡ ok result
    → (headers : jwe.Headers) × (jwe.set_kid key.key_id ≡ ok headers)
      × (jwe.encrypt content key.key headers ≡ ok result.payload)
      × (result.kind ≡ encryption_type)
unfolding encrypt_to
encrypt_to-inv jwe content key result h =
    let (headers, set, h1) =
      >>=-eq-ok (map_err EncryptError.key_id_header (jwe.set_kid key.key_id)) _ h in
    let (encrypted, sealed, h2) =
      >>=-eq-ok (map_err EncryptError.encryption (jwe.encrypt content key.key headers)) _ h1 in
    let same : record { payload = encrypted; kind = encryption_type } ≡ result = cc in
    (
      headers,
      map_err_ok EncryptError.key_id_header (jwe.set_kid key.key_id) set,
      map_err_ok EncryptError.encryption (jwe.encrypt content key.key headers) sealed
          ∙ ap (λ (d : EncryptedData). ok d.payload) same,
      sym (ap (λ (d : EncryptedData). d.kind) same),
    )

encrypt_fetched-IsSealed :
    (jwe : Jwe) (content : String) (fetched : Result FetchError PublicKey × KeyClient)
    (result : EncryptedData)
    → content ≢ ""
    → ((key : PublicKey) → fetched.0 ≡ ok key → min_rsa_key_size ≤ key.key.bit_len)
    → (encrypt_fetched jwe content fetched).0 ≡ ok result
    → IsSealed jwe fetched.0 content result
unfolding encrypt_fetched
encrypt_fetched-IsSealed jwe content (fetched, c) result set long h =
    let (key, found, h1) = >>=-eq-ok (map_err EncryptError.no_key fetched) _ h in
    let is_fetched = map_err_ok EncryptError.no_key fetched found in
    let (headers, id, encrypted, kind) = encrypt_to-inv jwe content key result h1 in
    record {
      key = key;
      headers = headers;
      is_fetched = is_fetched;
      has_id = id;
      is_encrypted = encrypted;
      has_type = kind;
      is_long = long key is_fetched;
      has_content = set;
    }

encrypt_fetched-client :
    (jwe : Jwe) (content : String) (fetched : Result FetchError PublicKey × KeyClient)
    → (encrypt_fetched jwe content fetched).1 ≡ fetched.1
unfolding encrypt_fetched
encrypt_fetched-client jwe content (fetched, c) = refl

-- From a key client that has cached no key or a long one, at an instant later than the lifetime of a
-- cached key, `Encrypt` leaves such a client, and what it returns without an error is data that is not
-- empty, encrypted to the key that `FetchKey` returned, under its id, and this key has at least 2048 bits.
pub encrypt-IsSealed :
    (jwe : Jwe) (server : Server) (keys : KeyServer) (now logged_in done : ℕ) (content : String)
    (c : KeyClient)
    → token_lifetime ≤ now
    → IsSafe c
    → IsSafe (encrypt jwe server keys now logged_in done content c).1
      × ((result : EncryptedData)
          → (encrypt jwe server keys now logged_in done content c).0 ≡ ok result
          → IsSealed jwe (fetch_key server keys now logged_in done c).0 content result)
unfolding encrypt
encrypt-IsSealed jwe server keys now logged_in done content c late safe =
    elim (Bool-cases (content == "")) [
      | inl empty ↦ rw (empty, encrypt) (safe, λ result h. cc)
      | inr set ↦
          let (kept, long) = fetch_key-IsSafe server keys now logged_in done c late safe in
          let fetched = fetch_key server keys now logged_in done c in
          rw (set, encrypt)
            (
              subst IsSafe (sym (encrypt_fetched-client jwe content fetched)) kept,
              λ result h.
                  encrypt_fetched-IsSealed jwe content fetched result
                    (λ e. let is_empty : (content == "") ≡ true = (eq_iff content "").1 e in cc)
                    long h,
            )
    ]
