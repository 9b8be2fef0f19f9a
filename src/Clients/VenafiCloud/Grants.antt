-- ===== src/Clients/VenafiCloud/Grants.antt =====
-- The token of an upload to Venafi Cloud, and who granted it.
use jetstack_secure.Prelude.{
  ℕ, ◌+◌, ◌≤◌, ◌≡◌, ap, ◌∙◌, subst, String, false, not, ◌&&◌, Option, none, some, [], ◌∷◌, ◌⊎◌, inl,
  inr, arith, ltb, eqb, Bool-cases, Option-cases,
}
use jetstack_secure.Prelude.Results.{ok, >>=-eq-ok, map_err, map_err_ok}
use jetstack_secure.Clients.Http.{Response, Request, Web, exchange, exchange-map_err_ok}
use jetstack_secure.Clients.Instants.{signed_seconds, add_duration, minute, unix}
use jetstack_secure.Clients.VenafiCloud.{
  VenafiCloudClient, VenafiCloudAccessToken, AccessTokenInformation, Claims, VenafiError, Library,
  Clock, usable_token, generate_and_sign_jwt_token, token_request, send_http_request,
  update_access_token, get_valid_access_token, access_token_endpoint, prod_url,
}

pub accepted_status :
    (code : ℕ) → not (eqb code 200) && not (eqb code 201) ≡ false → (code ≡ 200) ⊎ (code ≡ 201)
accepted_status code h = elim (Bool-cases (eqb code 200)) [
  | inl e ↦ inl (ground arith)
  | inr n ↦ inr (ground arith)
]

usable_token-some :
    (held : Option VenafiCloudAccessToken) (now : ℕ) {t : VenafiCloudAccessToken}
    → usable_token held now ≡ some t
    → (held ≡ some t) × (now + minute ≤ t.expiration_time)
unfolding usable_token
usable_token-some none now h = cc
usable_token-some (some u) now {t} h = elim (Bool-cases (ltb u.expiration_time (now + minute))) [
  | inl old ↦ let h' = rw (old, usable_token) at h in cc
  | inr valid ↦
      let same : u ≡ t = let h' = rw (valid, usable_token) at h in cc in
      (
        ap (λ (v : VenafiCloudAccessToken). some v) same,
        subst (λ (v : VenafiCloudAccessToken). now + minute ≤ v.expiration_time) same
            (ground arith),
      )
]

module _ {D : Type 0} (web : Web) (library : Library D) where
  -- What the client asserts.
  abbrev pub claims_of : Clock → VenafiCloudClient → library.Url → Claims
  claims_of clock c prod = record {
    sub = c.credentials.client_id;
    iss = c.credentials.client_id;
    iat = unix clock.issued;
    exp = unix (clock.expires + minute);
    aud = library.join_path (library.host prod ∷ access_token_endpoint ∷ []);
    jti = clock.jti;
  }

  -- The server granted the token to an assertion of the client, signed with its key.
  pub record IsGranted (clock : Clock) (c : VenafiCloudClient) (t : VenafiCloudAccessToken)
      : Type 0 where
    pub prod : library.Url
    pub assertion : String
    pub response : Response
    pub body : String
    pub information : AccessTokenInformation
    pub is_prod : library.parse_url prod_url ≡ ok prod
    pub is_signed :
        library.signed_string c.jwt_signing_alg c.private_key (claims_of clock c prod)
        ≡ ok assertion
    pub is_answered : web.perform (token_request web library c assertion) ≡ ok response
    pub has_status : (response.status_code ≡ 200) ⊎ (response.status_code ≡ 201)
    pub is_read : response.body ≡ ok body
    pub is_parsed : library.unmarshal_token body ≡ ok information
    pub is_token : t ≡ record {
      access_token = information.access_token;
      expiration_time = add_duration clock.requested (signed_seconds information.expires_in);
    }

  generate_and_sign_jwt_token_ok :
      (clock : Clock) (c : VenafiCloudClient) {assertion : String}
      → generate_and_sign_jwt_token web library clock c ≡ ok assertion
      → (prod : library.Url) × (library.parse_url prod_url ≡ ok prod)
        × (library.signed_string c.jwt_signing_alg c.private_key (claims_of clock c prod)
            ≡ ok assertion)
  unfolding generate_and_sign_jwt_token
  generate_and_sign_jwt_token_ok clock c h =
      let (prod, parsed, signed) =
        >>=-eq-ok (map_err VenafiError.bad_url (library.parse_url prod_url)) _ h in
      (
        prod,
        map_err_ok VenafiError.bad_url (library.parse_url prod_url) parsed,
        map_err_ok VenafiError.not_signed
            (library.signed_string c.jwt_signing_alg c.private_key (claims_of clock c prod)) signed,
      )

  send_http_request_ok :
      (request : Request) {information : AccessTokenInformation}
      → send_http_request web library request ≡ ok information
      → (response : Response) × (body : String) × (web.perform request ≡ ok response)
        × ((response.status_code ≡ 200) ⊎ (response.status_code ≡ 201))
        × (response.body ≡ ok body)
        × (library.unmarshal_token body ≡ ok information)
  unfolding send_http_request
  send_http_request_ok request h =
      let (response, answered, h1) =
        >>=-eq-ok (map_err VenafiError.no_response (exchange web request)) _ h in
      elim (Bool-cases (not (eqb response.status_code 200) && not (eqb response.status_code 201))) [
        | inl refused ↦ let h2 = rw refused at h1 in cc
        | inr accepted ↦
            let h2 = rw accepted at h1 in
            let (body, read, parsed) =
              >>=-eq-ok (map_err VenafiError.not_read response.body) _ h2 in
            (
              response,
              body,
              exchange-map_err_ok VenafiError.no_response web request answered,
              accepted_status response.status_code accepted,
              map_err_ok VenafiError.not_read response.body read,
              map_err_ok VenafiError.not_parsed (library.unmarshal_token body) parsed,
            )
      ]

  update_access_token_ok :
      (clock : Clock) (c : VenafiCloudClient) {t : VenafiCloudAccessToken}
      → update_access_token web library clock c ≡ ok t
      → IsGranted clock c t
  unfolding update_access_token
  update_access_token_ok clock c h =
      let (assertion, signed, h1) =
        >>=-eq-ok (generate_and_sign_jwt_token web library clock c) _ h in
      let (information, sent, h2) =
        >>=-eq-ok (send_http_request web library (token_request web library c assertion)) _ h1 in
      let (prod, parsed_prod, made) = generate_and_sign_jwt_token_ok clock c signed in
      let (response, body, answered, status, read, parsed) =
        send_http_request_ok (token_request web library c assertion) sent in
      record {
        prod = prod;
        assertion = assertion;
        response = response;
        body = body;
        information = information;
        is_prod = parsed_prod;
        is_signed = made;
        is_answered = answered;
        has_status = status;
        is_read = read;
        is_parsed = parsed;
        is_token = cc;
      }

  -- The client held the token, and it lasts for another minute; or the server has granted it.
  pub data IsAuthorized (clock : Clock) (c : VenafiCloudClient) (t : VenafiCloudAccessToken)
      : Type 0 where
    held :
        c.access_token ≡ some t
        → clock.checked + minute ≤ t.expiration_time
        → IsAuthorized clock c t
    renewed : IsGranted clock c t → IsAuthorized clock c t

  pub get_valid_access_token_ok :
      (clock : Clock) (c : VenafiCloudClient) {t : VenafiCloudAccessToken}
      → get_valid_access_token web library clock c ≡ ok t
      → IsAuthorized clock c t
  unfolding get_valid_access_token
  get_valid_access_token_ok clock c {t} h =
      elim (Option-cases (usable_token c.access_token clock.checked)) [
        | inl unusable ↦
            renewed (update_access_token_ok clock c (rw (unusable, get_valid_access_token) at h))
        | inr (u, usable) ↦
            let same : u ≡ t = let h' = rw (usable, get_valid_access_token) at h in cc in
            let (holds, alive) =
              usable_token-some c.access_token clock.checked
                (usable ∙ ap (λ (v : VenafiCloudAccessToken). some v) same) in
            held holds alive
      ]
