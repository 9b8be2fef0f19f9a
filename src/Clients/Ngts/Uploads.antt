-- ===== src/Clients/Ngts/Uploads.antt =====
-- What an upload to NGTS without an error has sent, and with which token.
use jetstack_secure.Prelude.{
  ◌≤◌, ◌<◌, ◌≡◌, refl, ap, sym, ◌∙◌, subst, String, Option, none, some, List, inl, inr, Bool-cases,
}
use jetstack_secure.Prelude.Results.{Result, ok, err, Result-cases, map_err}
use jetstack_secure.Api.{DataReading}
use jetstack_secure.CyberArk.Publish.{Options}
use jetstack_secure.Clients.Http.{
  Request, Response, Web, is_success, is_success-inv, exchange, exchange-map_err_ok,
}
use jetstack_secure.Clients.Http.Posts.{IsJsonPost, url_with_options, IsJsonPost-of_headers}
use jetstack_secure.Clients.VenafiCloud.{Library, Clock}
use jetstack_secure.Clients.Ngts.{
  NgtsClient, NgtsAccessToken, NgtsError, get_valid_access_token, post_request, checked_status,
  send_with, post, payload, upload_url, upload_query, authorization,
  post_data_readings_with_options,
}
use jetstack_secure.Clients.Ngts.Grants.{IsAuthorized, get_valid_access_token_ok}

module _ {D : Type 0} (web : Web) (library : Library D) where
  checked_status-none :
      (r : Result NgtsError Response)
      → checked_status web library r ≡ none
      → (response : Response) × (r ≡ ok response)
        × ((200 ≤ response.status_code) × (response.status_code < 300))
  unfolding checked_status
  checked_status-none (err e) h = cc
  checked_status-none (ok response) h = elim (Bool-cases (is_success response.status_code)) [
    | inl good ↦ (response, refl, is_success-inv response.status_code good)
    | inr bad ↦ let h' = rw (bad, checked_status) at h in cc
  ]

  -- The data was sent with the token that the client then holds, and the answer is a success.
  pub record IsPosted (clock : Clock) (url body : String) (before after : NgtsClient library.Url)
      : Type 0 where
    pub token : NgtsAccessToken
    pub request : Request
    pub response : Response
    pub is_authorized : IsAuthorized web library clock before token
    pub is_client : after ≡ record before { access_token = some token }
    pub is_request : IsJsonPost request url body token.access_token library.user_agent
    pub is_answered : web.perform request ≡ ok response
    pub has_status : (200 ≤ response.status_code) × (response.status_code < 300)

  -- The request with a token.
  post_request-IsJsonPost :
      (bearer url body : String)
      → IsJsonPost (post_request web library bearer url body) url body bearer library.user_agent
  unfolding post_request authorization
  post_request-IsJsonPost bearer url body = IsJsonPost-of_headers url body bearer library.user_agent

  send_with-IsPosted :
      (clock : Clock) (url body : String) (c : NgtsClient library.Url)
      (valid : Result NgtsError NgtsAccessToken)
      → get_valid_access_token web library clock c ≡ valid
      → checked_status web library (send_with web library c url body valid).0 ≡ none
      → IsPosted clock url body c (send_with web library c url body valid).1
  unfolding send_with
  send_with-IsPosted clock url body c (err e) same h =
      let (response, made, status) = checked_status-none (err e) h in cc
  send_with-IsPosted clock url body c (ok t) same h =
      let request = post_request web library t.access_token url body in
      let (response, made, status) =
        checked_status-none (map_err NgtsError.no_response (exchange web request)) h in
      record {
        token = t;
        request = request;
        response = response;
        is_authorized = get_valid_access_token_ok web library clock c same;
        is_client = refl;
        is_request = post_request-IsJsonPost t.access_token url body;
        is_answered = exchange-map_err_ok NgtsError.no_response web request made;
        has_status = status;
      }

  post-IsPosted :
      (clock : Clock) (url body : String) (c : NgtsClient library.Url)
      → checked_status web library (post web library clock url body c).0 ≡ none
      → IsPosted clock url body c (post web library clock url body c).1
  unfolding post
  post-IsPosted clock url body c h =
      send_with-IsPosted clock url body c (get_valid_access_token web library clock c) refl h

  -- The payload that an upload without an error has sent to the URL of the client and the options.
  pub record IsUploaded (clock : Clock) (readings : List (DataReading D)) (opts : Options)
      (before after : NgtsClient library.Url) : Type 0 where
    pub body : String
    pub is_payload :
        library.marshal (record {
          agent_metadata = before.agent_metadata;
          data_gather_time = clock.gathered;
          data_readings = readings;
        })
        ≡ ok body
    pub is_posted :
        IsPosted clock
          (url_with_options library
            (library.join_url before.base_url "v1/tlspk/upload/clusterdata/no")
            opts
            opts.claimable_certs)
          body
          before
          after

  post_data_readings_with_options_err :
      (clock : Clock) (readings : List (DataReading D)) (opts : Options)
      (c : NgtsClient library.Url) (e : String)
      → library.marshal (payload web library clock c readings) ≡ err e
      → post_data_readings_with_options web library clock readings opts c
        ≡ (some (NgtsError.not_marshalled e), c)
  unfolding post_data_readings_with_options
  post_data_readings_with_options_err clock readings opts c e failed =
      rw (failed, post_data_readings_with_options) refl

  post_data_readings_with_options_marshalled :
      (clock : Clock) (readings : List (DataReading D)) (opts : Options)
      (c : NgtsClient library.Url) (body : String)
      → library.marshal (payload web library clock c readings) ≡ ok body
      → post_data_readings_with_options web library clock readings opts c ≡ (
        checked_status web library
            (post web library clock (upload_url web library c opts) body c).0,
        (post web library clock (upload_url web library c opts) body c).1,
      )
  unfolding post_data_readings_with_options
  post_data_readings_with_options_marshalled clock readings opts c body made =
      rw (made, post_data_readings_with_options) refl

  -- An upload to NGTS without an error has posted the readings, with the agent's metadata and the time, to
  -- the URL of the client with the options as the query; the request carried a token, unless this is empty;
  -- and the answer was a success. The client held the token, which lasted for another minute when it was
  -- tested, or the server granted it to an assertion of the client that its key signed.
  pub ngts_post_ok :
      (clock : Clock) (readings : List (DataReading D)) (opts : Options)
      (c : NgtsClient library.Url)
      → (post_data_readings_with_options web library clock readings opts c).0 ≡ none
      → IsUploaded clock readings opts c
          (post_data_readings_with_options web library clock readings opts c).1
  unfolding payload upload_url upload_query
  ngts_post_ok clock readings opts c h =
      elim (Result-cases (library.marshal (payload web library clock c readings))) [
        | inr (e, failed) ↦
            let ran = post_data_readings_with_options_err clock readings opts c e failed in cc
        | inl (body, made) ↦
            let ran = post_data_readings_with_options_marshalled clock readings opts c body made in
            let posted =
              post-IsPosted clock (upload_url web library c opts) body c
                (sym (ap (λ (r : Option NgtsError × NgtsClient library.Url). r.0) ran) ∙ h) in
            record {
              body = body;
              is_payload = made;
              is_posted =
                  subst (IsPosted clock (upload_url web library c opts) body c)
                    (sym (ap (λ (r : Option NgtsError × NgtsClient library.Url). r.1) ran)) posted;
            }
      ]
