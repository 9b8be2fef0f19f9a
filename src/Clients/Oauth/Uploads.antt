-- ===== src/Clients/Oauth/Uploads.antt =====
-- What an upload without an error has sent, with which token, and how long that token lasts.
use jetstack_secure.Prelude.{
  ℕ, ◌+◌, ◌*◌, ◌≤◌, ◌<◌, ◌≡◌, ◌↔◌, refl, ap, sym, ◌∙◌, subst, String, Option, none, some, List, [],
  ◌∷◌, inl, inr, Bool-cases,
}
use jetstack_secure.Prelude.Results.{Result, ok, err, Result-cases}
use jetstack_secure.Api.{DataReading}
use jetstack_secure.Clients.Http.{Request, Response, Web, is_success, is_success-inv, full_url}
use jetstack_secure.Clients.Http.Posts.{IsJsonPost, IsJsonPost-of_headers}
use jetstack_secure.Clients.Instants.{add_duration-seconds_iff}
use jetstack_secure.Clients.Oauth.{
  AccessToken, OAuthClient, OAuthCredentials, OAuthError, Library, Clock, respond,
  renew_access_token, get_valid_access_token, post_request, checked_status, outcome, post,
  upload_path, payload, authorization, post_data_readings,
}
use jetstack_secure.Clients.Oauth.Grants.{
  IsAuthorized, get_valid_access_token_ok, IsGranted, renew_access_token_ok, respond_ok,
}

module _ {D : Type 0} (web : Web) (library : Library D) where
  -- The data that the client marshalled was sent with its token, and the answer is a success.
  pub record IsUploaded (clock : Clock) (org_id cluster_id : String)
      (readings : List (DataReading D)) (before after : OAuthClient) : Type 0 where
    pub body : String
    pub request : Request
    pub response : Response
    pub is_payload :
        library.marshal (record {
          agent_metadata = before.agent_metadata;
          data_gather_time = clock.gathered;
          data_readings = readings;
        })
        ≡ ok body
    pub is_authorized : IsAuthorized web library clock before after
    pub is_request :
        IsJsonPost request
          (full_url before.base_url
            (library.join_path ("/api/v1/org" ∷ org_id ∷ "datareadings" ∷ cluster_id ∷ [])))
          body
          after.access_token.bearer
          library.user_agent
    pub is_answered : web.perform request ≡ ok response
    pub has_status : (200 ≤ response.status_code) × (response.status_code < 300)

  -- The request of a client with its token.
  post_request-IsJsonPost :
      (c : OAuthClient) (path body : String)
      → IsJsonPost
          (post_request web library c path body)
          (full_url c.base_url path)
          body
          c.access_token.bearer
          library.user_agent
  unfolding post_request authorization
  post_request-IsJsonPost c path body = IsJsonPost-of_headers _ body _ library.user_agent

  IsAuthorized-base_url :
      (clock : Clock) (c c' : OAuthClient)
      → IsAuthorized web library clock c c'
      → c'.base_url ≡ c.base_url
  IsAuthorized-base_url clock c c' (IsAuthorized.kept same set alive) =
      ap (λ (d : OAuthClient). d.base_url) same
  IsAuthorized-base_url clock c c' (IsAuthorized.renewed t old given same) =
      ap (λ (d : OAuthClient). d.base_url) same

  outcome-none :
      (r : Result OAuthError Response)
      → outcome web library r ≡ none
      → (response : Response) × (r ≡ ok response)
        × ((200 ≤ response.status_code) × (response.status_code < 300))
  unfolding outcome checked_status
  outcome-none (err e) h = cc
  outcome-none (ok response) h = elim (Bool-cases (is_success response.status_code)) [
    | inl good ↦ (response, refl, is_success-inv response.status_code good)
    | inr bad ↦ let h' = rw (bad, outcome, checked_status) at h in cc
  ]

  -- `post` by whether there is a valid token.
  pub post_ok :
      (clock : Clock) (path body : String) (c c' : OAuthClient)
      → get_valid_access_token web library clock c ≡ ok c'
      → post web library clock path body c
        ≡ (respond web (post_request web library c' path body), c')
  unfolding post respond
  post_ok clock path body c c' valid = rw (valid, post) refl

  pub post_err :
      (clock : Clock) (path body : String) (c : OAuthClient) (e : OAuthError)
      → get_valid_access_token web library clock c ≡ err e
      → post web library clock path body c ≡ (err e, c)
  unfolding post
  post_err clock path body c e failed = rw (failed, post) refl

  pub post_data_readings_marshalled :
      (clock : Clock) (org_id cluster_id : String) (readings : List (DataReading D))
      (c : OAuthClient) (body : String) (r : Result OAuthError Response) (c' : OAuthClient)
      → library.marshal (payload web library clock c readings) ≡ ok body
      → post web library clock (upload_path web library org_id cluster_id) body c ≡ (r, c')
      → post_data_readings web library clock org_id cluster_id readings c
        ≡ (outcome web library r, c')
  unfolding post_data_readings
  post_data_readings_marshalled clock org_id cluster_id readings c body r c' made posted =
      rw (made, posted, post_data_readings) refl

  pub post_data_readings_err :
      (clock : Clock) (org_id cluster_id : String) (readings : List (DataReading D))
      (c : OAuthClient) (e : String)
      → library.marshal (payload web library clock c readings) ≡ err e
      → post_data_readings web library clock org_id cluster_id readings c
        ≡ (some (OAuthError.not_marshalled e), c)
  unfolding post_data_readings
  post_data_readings_err clock org_id cluster_id readings c e failed =
      rw (failed, post_data_readings) refl

  -- An upload without an error has posted the readings, with the agent's metadata and the time, to the path
  -- of the organization and the cluster; the request carried the token that the client has afterwards,
  -- unless this is empty; and the answer was a success. The client held this token, which was not empty and
  -- had not expired when the upload began, or the authorization server granted it to the credentials.
  pub post_data_readings_ok :
      (clock : Clock) (org_id cluster_id : String) (readings : List (DataReading D))
      (c : OAuthClient)
      → (post_data_readings web library clock org_id cluster_id readings c).0 ≡ none
      → IsUploaded clock org_id cluster_id readings c
          (post_data_readings web library clock org_id cluster_id readings c).1
  unfolding payload upload_path
  post_data_readings_ok clock org_id cluster_id readings c h =
      elim (Result-cases (library.marshal (payload web library clock c readings))) [
        | inr (e, failed) ↦
            let ran = post_data_readings_err clock org_id cluster_id readings c e failed in cc
        | inl (body, made) ↦ elim (Result-cases (get_valid_access_token web library clock c)) [
          | inr (e, failed) ↦
              let ran =
                post_data_readings_marshalled clock org_id cluster_id readings c body (err e) c made
                  (post_err clock (upload_path web library org_id cluster_id) body c e failed) in
              let (response, answered, status) =
                outcome-none (err e)
                  (sym (ap (λ (r : Option OAuthError × OAuthClient). r.0) ran) ∙ h) in
              cc
          | inl (c', valid) ↦
              let request =
                post_request web library c' (upload_path web library org_id cluster_id) body in
              let ran =
                post_data_readings_marshalled clock org_id cluster_id readings c body
                  (respond web request) c' made
                  (post_ok clock (upload_path web library org_id cluster_id) body c c' valid) in
              let (response, answered, status) =
                outcome-none (respond web request)
                  (sym (ap (λ (r : Option OAuthError × OAuthClient). r.0) ran) ∙ h) in
              subst
                (λ (r : Option OAuthError × OAuthClient).
                  IsUploaded clock org_id cluster_id readings c r.1)
                (sym ran)
                (record {
                  body = body;
                  request = request;
                  response = response;
                  is_payload = made;
                  is_authorized = get_valid_access_token_ok web library clock c valid;
                  is_request =
                      subst
                        (λ (base_url : String).
                          IsJsonPost request
                            (full_url base_url (
                              library.join_path
                                ("/api/v1/org" ∷ org_id ∷ "datareadings" ∷ cluster_id ∷ [])))
                            body c'.access_token.bearer library.user_agent)
                        (IsAuthorized-base_url clock c c'
                          (get_valid_access_token_ok web library clock c valid))
                        (post_request-IsJsonPost c' (upload_path web library org_id cluster_id)
                          body);
                  is_answered = respond_ok web request answered;
                  has_status = status;
                })
        ]
      ]

  expires_iff :
      (now : ℕ) (c : OAuthCredentials) (t : AccessToken) (g : IsGranted web library now c t)
      → (t.expiration_date ≡ now + g.token.expires_in * 1000000000)
        ↔ (g.token.expires_in ≤ 9223372036)
  expires_iff now c t g =
      let date = ap (λ (u : AccessToken). u.expiration_date) g.is_token in
      let (bounded, exact) = add_duration-seconds_iff now g.token.expires_in in
      ((λ e. bounded (sym date ∙ e)), (λ h. date ∙ exact h))

  -- A renewed token expires as many seconds after the renewal as the server says, exactly where these are
  -- at most 9223372036: beyond, the duration in nanoseconds overflows.
  pub renew_access_token-expires_iff :
      (now : ℕ) (c c' : OAuthClient)
      → renew_access_token web library now c ≡ ok c'
      → (g : IsGranted web library now c.credentials c'.access_token)
        × ((c'.access_token.expiration_date ≡ now + g.token.expires_in * 1000000000)
            ↔ (g.token.expires_in ≤ 9223372036))
  renew_access_token-expires_iff now c c' h =
      let (t, given, same) = renew_access_token_ok web library now c h in
      let g : IsGranted web library now c.credentials c'.access_token =
        subst (IsGranted web library now c.credentials)
          (sym (ap (λ (d : OAuthClient). d.access_token) same)) given in
      (g, expires_iff now c.credentials c'.access_token g)
