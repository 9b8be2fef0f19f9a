-- ===== src/Gatherers/Oidc/Reported.antt =====
-- What the gatherer reports of each of its two documents.
use jetstack_secure.Prelude.{ℕ, String, ◌≡◌, ◌≢◌, ◌⊎◌, inl, inr, refl, Option, none, List}
use jetstack_secure.Prelude.Results.{ok, err, Result-cases}
use jetstack_secure.Prelude.Int.{pos}
use jetstack_secure.Prelude.Texts.{concat-ne_empty}
use jetstack_secure.Gatherers.Oidc.{
  ApiServer, OidcDiscoveryData, fetch_oidc, fetch_document, fetch_oidc_config, fetch_jwks,
  response_of, err_to_string, unmarshal_message,
}

-- The document was answered and decoded, and there is no error; or there is an error in its place, and
-- nothing that was answered can be decoded.
abbrev pub IsReported : {J : Type 0} → ApiServer J → String → Option J → String → Type 0
IsReported {J = J} server path response e =
    ((bytes : List ℕ) × (server.get path ≡ ok bytes)
      × (server.unmarshal bytes ≡ ok response)
      × (e ≡ ""))
    ⊎ ((response ≡ none)
        × (e ≢ "")
        × ((bytes : List ℕ) (decoded : Option J)
            → server.get path ≡ ok bytes
            → server.unmarshal bytes ≢ ok decoded))

module _ {J : Type 0} (server : ApiServer J) where
  fetch_document-IsReported :
      (path document : String)
      → IsReported server path
          (response_of server (fetch_document server path document))
          (err_to_string server (fetch_document server path document))
  unfolding fetch_document response_of err_to_string unmarshal_message
  fetch_document-IsReported path document = elim (Result-cases (server.get path)) [
    | inr (e, failed) ↦
        rw failed
          (inr (refl, concat-ne_empty "failed to get " _ (λ e. cc), λ bytes decoded got. cc))
    | inl (bytes, got) ↦ elim (Result-cases (server.unmarshal bytes)) [
      | inl (response, decoded) ↦
          let fetched : fetch_document server path document ≡ ok response =
            rw (got, decoded) refl in
          rw fetched (inl (bytes, got, decoded, refl))
      | inr (e, failed) ↦
          let fetched : fetch_document server path document
              ≡ err (unmarshal_message server document bytes e) =
            rw (got, failed) refl in
          rw fetched (
            inr (
              refl,
              concat-ne_empty "failed to unmarshal " _ (λ e. cc),
              λ other decoded got' done.
                  let same : bytes ≡ other = cc in let decoded' = rw (← same) at done in cc,
            ))
    ]
  ]

  -- The gatherer never fails. Of the discovery document and the key set, each by itself, it gives what the
  -- server answered, where this decodes, and no error; or else nothing and an error that is not empty.
  pub fetch_oidc-IsReported :
      (result : OidcDiscoveryData J) × (fetch_oidc server ≡ ok (result, pos 1))
      × IsReported server "/.well-known/openid-configuration" result.oidc_config
          result.oidc_config_error
      × IsReported server "/openid/v1/jwks" result.jwks result.jwks_error
  unfolding fetch_oidc fetch_oidc_config fetch_jwks
  fetch_oidc-IsReported = (
    _,
    refl,
    fetch_document-IsReported "/.well-known/openid-configuration" "OIDC discovery document",
    fetch_document-IsReported "/openid/v1/jwks" "JWKS response",
  )
