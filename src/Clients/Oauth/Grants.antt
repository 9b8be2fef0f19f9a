-- ===== src/Clients/Oauth/Grants.antt =====
-- The token of an upload with OAuth, and who granted it.
use jetstack_secure.Prelude.{
  ℕ, ◌≤◌, ◌<◌, ◌≡◌, ◌≢◌, refl, ap, ◌∙◌, String, true, false, inl, inr, arith, eq_iff, eqb,
  Bool-cases, Option-cases,
}
use jetstack_secure.Prelude.Results.{Result, ok, err, >>=-eq-ok}
use jetstack_secure.Clients.Http.{Request, Response, Web, is_success, is_success-inv}
use jetstack_secure.Clients.Instants.{seconds, add_duration}
use jetstack_secure.Clients.Oauth.{
  AccessToken, OAuthClient, OAuthCredentials, OAuthError, TokenResponse, Library, Clock,
  needs_renew, or_oauth_error, respond, token_request, granted, renew_access_token,
  get_valid_access_token,
}

pub or_oauth_error_ok {ℓ} :
    {A : Type ℓ} (f : String → OAuthError) (r : Result String A) {a : A}
    → or_oauth_error f r ≡ ok a
    → r ≡ ok a
unfolding or_oauth_error
or_oauth_error_ok f (ok b) h = cc
or_oauth_error_ok f (err e) h = cc

pub respond_ok :
    (web : Web) (request : Request) {response : Response}
    → respond web request ≡ ok response
    → web.perform request ≡ ok response
unfolding respond
respond_ok web request h = elim (Option-cases (web.refuses request.url)) [
  | inl made ↦
      or_oauth_error_ok OAuthError.no_response (web.perform request) (rw (made, respond) at h)
  | inr (e, refused) ↦ let h' = rw (refused, respond) at h in cc
]

needs_renew-false :
    (t : AccessToken) (now : ℕ)
    → needs_renew t now ≡ false
    → (t.bearer ≢ "") × (now ≤ t.expiration_date)
unfolding needs_renew
needs_renew-false t now h =
    ((λ e. let set = (eq_iff t.bearer "").1 e in let h' = rw set at h in cc), ground arith)

module _ {D : Type 0} (web : Web) (library : Library D) where
  -- The authorization server granted the token to the credentials.
  pub record IsGranted (now : ℕ) (c : OAuthCredentials) (t : AccessToken) : Type 0 where
    pub response : Response
    pub body : String
    pub token : TokenResponse
    pub is_answered : web.perform (token_request web library c) ≡ ok response
    pub has_status : (200 ≤ response.status_code) × (response.status_code < 300)
    pub is_read : response.body ≡ ok body
    pub is_parsed : library.unmarshal_token body ≡ ok token
    pub is_lasting : token.expires_in ≢ 0
    pub is_token : t ≡ record {
      bearer = token.access_token;
      expiration_date = add_duration now (seconds token.expires_in);
    }

  pub granted_ok :
      (response : Response) {token : TokenResponse}
      → granted web library response ≡ ok token
      → (body : String) × (response.body ≡ ok body)
        × (is_success response.status_code ≡ true)
        × (library.unmarshal_token body ≡ ok token)
        × (token.expires_in ≢ 0)
  unfolding granted
  granted_ok response {token} h =
      let (body, read, h1) = >>=-eq-ok (or_oauth_error OAuthError.not_read response.body) _ h in
      elim (Bool-cases (is_success response.status_code)) [
        | inr refused ↦ let h2 = rw refused at h1 in cc
        | inl accepted ↦
            let h2 = rw accepted at h1 in
            let (t, parsed, h3) =
              >>=-eq-ok (or_oauth_error OAuthError.not_parsed (library.unmarshal_token body)) _
                h2 in
            elim (Bool-cases (eqb t.expires_in 0)) [
              | inl zero_seconds ↦ let h4 = rw zero_seconds at h3 in cc
              | inr some_seconds ↦
                  let same : t ≡ token = let h4 = rw some_seconds at h3 in cc in
                  (
                    body,
                    or_oauth_error_ok OAuthError.not_read response.body read,
                    accepted,
                    or_oauth_error_ok OAuthError.not_parsed (library.unmarshal_token body) parsed
                        ∙ ap (λ (x : TokenResponse). ok x) same,
                    (λ e.
                        let e' = ap (λ (x : TokenResponse). x.expires_in) same ∙ e in ground arith),
                  )
            ]
      ]

  pub renew_access_token_ok :
      (now : ℕ) (c : OAuthClient) {c' : OAuthClient}
      → renew_access_token web library now c ≡ ok c'
      → (t : AccessToken) × IsGranted now c.credentials t × (c' ≡ record c { access_token = t })
  unfolding renew_access_token
  renew_access_token_ok now c {c'} h =
      let (response, answered, h1) =
        >>=-eq-ok (respond web (token_request web library c.credentials)) _ h in
      let (token, given, h2) = >>=-eq-ok (granted web library response) _ h1 in
      let (body, read, accepted, parsed, lasting) = granted_ok response given in
      let t : AccessToken = record {
        bearer = token.access_token;
        expiration_date = add_duration now (seconds token.expires_in);
      } in
      (
        t,
        record {
          response = response;
          body = body;
          token = token;
          is_answered = respond_ok web (token_request web library c.credentials) answered;
          has_status = is_success-inv response.status_code accepted;
          is_read = read;
          is_parsed = parsed;
          is_lasting = lasting;
          is_token = refl;
        },
        cc,
      )

  -- The client after an upload that began with another: it has kept its token, which had not expired, or
  -- has one that was granted since.
  pub data IsAuthorized (clock : Clock) (before after : OAuthClient) : Type 0 where
    kept :
        after ≡ before
        → before.access_token.bearer ≢ ""
        → clock.checked ≤ before.access_token.expiration_date
        → IsAuthorized clock before after
    renewed :
        (t : AccessToken)
        → needs_renew before.access_token clock.checked ≡ true
        → IsGranted clock.renewed before.credentials t
        → after ≡ record before { access_token = t }
        → IsAuthorized clock before after

  pub get_valid_access_token_ok :
      (clock : Clock) (c : OAuthClient) {c' : OAuthClient}
      → get_valid_access_token web library clock c ≡ ok c'
      → IsAuthorized clock c c'
  unfolding get_valid_access_token
  get_valid_access_token_ok clock c {c'} h =
      elim (Bool-cases (needs_renew c.access_token clock.checked)) [
        | inl old ↦
            let (t, given, same) =
              renew_access_token_ok clock.renewed c (rw (old, get_valid_access_token) at h) in
            renewed t old given same
        | inr valid ↦
            let (set, alive) = needs_renew-false c.access_token clock.checked valid in
            let h' = rw (valid, get_valid_access_token) at h in
            let same : c' ≡ c = cc in kept same set alive
      ]
