-- ===== src/Clients/ApiToken/Uploads.antt =====
-- pkg/client/client_api_token.go: what an upload with an API token without an error has sent.
use mathlib.Core.List.{Memᴰ}
use jetstack_secure.Prelude.{ℕ, ◌≤◌, ◌<◌, ◌≡◌, refl, String, List, [], ◌∷◌, inl, inr, Bool-cases}
use jetstack_secure.Prelude.Results.{ok, >>=-eq-ok, map_err, map_err_ok}
use jetstack_secure.Prelude.Texts.{concat}
use jetstack_secure.Api.{DataReading}
use jetstack_secure.Clients.Http.{
  Request, Response, Web, is_success, is_success-inv, exchange, exchange-map_err_ok, full_url,
}
use jetstack_secure.Clients.ApiToken.{
  ApiTokenClient, ApiTokenError, Library, post_request, checked_status, post_data_readings,
}

module _ {D : Type 0} (web : Web) (library : Library D) (c : ApiTokenClient) where
  -- The body is posted as JSON to the URL, with the token of the client.
  pub record IsTokenPost (request : Request) (url body : String) : Type 0 where
    pub is_url : request.url ≡ url
    pub is_body : request.body ≡ body
    pub is_json : Memᴰ ("Content-Type", "application/json") request.headers
    pub has_token : Memᴰ ("Authorization", concat "Bearer " c.api_token) request.headers
    pub has_agent : Memᴰ ("User-Agent", library.user_agent) request.headers

  pub record IsUploaded (now : ℕ) (org_id cluster_id : String) (readings : List (DataReading D))
      : Type 0 where
    pub body : String
    pub request : Request
    pub response : Response
    pub is_payload :
        library.marshal (record {
          agent_metadata = c.agent_metadata;
          data_gather_time = now;
          data_readings = readings;
        })
        ≡ ok body
    pub is_request :
        IsTokenPost request
          (full_url c.base_url
            (library.join_path ("/api/v1/org" ∷ org_id ∷ "datareadings" ∷ cluster_id ∷ [])))
          body
    pub is_answered : web.perform request ≡ ok response
    pub has_status : (200 ≤ response.status_code) × (response.status_code < 300)

  post_request-IsTokenPost :
      (path body : String)
      → IsTokenPost (post_request web library c path body) (full_url c.base_url path) body
  unfolding post_request
  post_request-IsTokenPost path body = record {
    is_url = refl;
    is_body = refl;
    is_json = Memᴰ.head refl;
    has_token = Memᴰ.tail (Memᴰ.head refl);
    has_agent = Memᴰ.tail (Memᴰ.tail (Memᴰ.head refl));
  }

  checked_status_ok :
      (response : Response) (done : Unit {0})
      → checked_status web library c response ≡ ok done
      → (200 ≤ response.status_code) × (response.status_code < 300)
  unfolding checked_status
  checked_status_ok response done h = elim (Bool-cases (is_success response.status_code)) [
    | inl good ↦ is_success-inv response.status_code good
    | inr bad ↦ let h' = rw bad at h in cc
  ]

  -- An upload with an API token without an error has posted the readings, with the agent's metadata and the
  -- time, to the path of the organization and the cluster, with the token of the client, and was answered
  -- with a success.
  pub api_token_post_ok :
      (now : ℕ) (org_id cluster_id : String) (readings : List (DataReading D)) (done : Unit {0})
      → post_data_readings web library c now org_id cluster_id readings ≡ ok done
      → IsUploaded now org_id cluster_id readings
  unfolding post_data_readings
  api_token_post_ok now org_id cluster_id readings done h =
      let (body, marshalled, h1) = >>=-eq-ok (map_err ApiTokenError.not_marshalled _) _ h in
      let path = library.join_path ("/api/v1/org" ∷ org_id ∷ "datareadings" ∷ cluster_id ∷ []) in
      let request = post_request web library c path body in
      let (response, answered, h2) =
        >>=-eq-ok (map_err ApiTokenError.no_response (exchange web request)) _ h1 in
      record {
        body = body;
        request = request;
        response = response;
        is_payload = map_err_ok ApiTokenError.not_marshalled _ marshalled;
        is_request = post_request-IsTokenPost path body;
        is_answered = exchange-map_err_ok ApiTokenError.no_response web request answered;
        has_status = checked_status_ok response done h2;
      }
