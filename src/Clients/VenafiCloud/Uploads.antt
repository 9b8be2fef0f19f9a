-- ===== src/Clients/VenafiCloud/Uploads.antt =====
-- What an upload to Venafi Cloud without an error has sent, and with which token.
use jetstack_secure.Prelude.{
  ◌≤◌, ◌<◌, ◌≡◌, refl, ap, sym, ◌∙◌, subst, String, Option, none, some, List, [], ◌∷◌, ◌++◌, is_set,
  if◌then◌else◌, inl, inr, Bool-cases,
}
use jetstack_secure.Prelude.Texts.{concat}
use jetstack_secure.Prelude.Results.{Result, ok, err, Result-cases, >>=-eq-ok, map_err, map_err_ok}
use jetstack_secure.Api.{DataReading}
use jetstack_secure.CyberArk.Publish.{Options}
use jetstack_secure.Clients.Http.{
  Request, Response, Web, is_success, is_success-inv, exchange, exchange-map_err_ok, full_url,
  ends_in_slash,
}
use jetstack_secure.Clients.Http.Posts.{IsJsonPost, IsJsonPost-of_headers}
use jetstack_secure.Clients.VenafiCloud.{
  VenafiCloudClient, VenafiCloudAccessToken, VenafiError, Library, Clock, get_valid_access_token,
  post_request, checked_status, send_with, post, payload, authorization, with_slash, upload_query,
  upload_url, upload, post_data_readings_with_options,
}
use jetstack_secure.Clients.VenafiCloud.Grants.{IsAuthorized, get_valid_access_token_ok}

module _ {D : Type 0} (web : Web) (library : Library D) where
  checked_status-none :
      (r : Result VenafiError Response)
      → checked_status web library r ≡ none
      → (response : Response) × (r ≡ ok response)
        × ((200 ≤ response.status_code) × (response.status_code < 300))
  unfolding checked_status
  checked_status-none (err e) h = cc
  checked_status-none (ok response) h = elim (Bool-cases (is_success response.status_code)) [
    | inl good ↦ (response, refl, is_success-inv response.status_code good)
    | inr bad ↦ let h' = rw (bad, checked_status) at h in cc
  ]

  -- The data was sent with the token that the client then holds, and the answer is a success.
  pub record IsPosted (clock : Clock) (url body : String) (before after : VenafiCloudClient)
      : Type 0 where
    pub token : VenafiCloudAccessToken
    pub request : Request
    pub response : Response
    pub is_authorized : IsAuthorized web library clock before token
    pub is_client : after ≡ record before { access_token = some token }
    pub is_request :
        IsJsonPost request (full_url before.base_url url) body token.access_token library.user_agent
    pub is_answered : web.perform request ≡ ok response
    pub has_status : (200 ≤ response.status_code) × (response.status_code < 300)

  -- The request with a token.
  post_request-IsJsonPost :
      (c : VenafiCloudClient) (bearer path body : String)
      → IsJsonPost
          (post_request web library c bearer path body)
          (full_url c.base_url path)
          body
          bearer
          library.user_agent
  unfolding post_request authorization
  post_request-IsJsonPost c bearer path body =
      IsJsonPost-of_headers _ body bearer library.user_agent

  send_with-IsPosted :
      (clock : Clock) (url body : String) (c : VenafiCloudClient)
      (valid : Result VenafiError VenafiCloudAccessToken)
      → get_valid_access_token web library clock c ≡ valid
      → checked_status web library (send_with web library c url body valid).0 ≡ none
      → IsPosted clock url body c (send_with web library c url body valid).1
  unfolding send_with
  send_with-IsPosted clock url body c (err e) same h =
      let (response, made, status) = checked_status-none (err e) h in cc
  send_with-IsPosted clock url body c (ok t) same h =
      let request = post_request web library c t.access_token url body in
      let (response, made, status) =
        checked_status-none (map_err VenafiError.no_response (exchange web request)) h in
      record {
        token = t;
        request = request;
        response = response;
        is_authorized = get_valid_access_token_ok web library clock c same;
        is_client = refl;
        is_request = post_request-IsJsonPost c t.access_token url body;
        is_answered = exchange-map_err_ok VenafiError.no_response web request made;
        has_status = status;
      }

  post-IsPosted :
      (clock : Clock) (url body : String) (c : VenafiCloudClient)
      → checked_status web library (post web library clock url body c).0 ≡ none
      → IsPosted clock url body c (post web library clock url body c).1
  unfolding post
  post-IsPosted clock url body c h =
      send_with-IsPosted clock url body c (get_valid_access_token web library clock c) refl h

  -- The URL with its own query and the options that are set.
  abbrev with_options : library.Url → Options → String
  with_options url opts = library.with_query url (
      library.query url
      ++ ((if is_set opts.cluster_name
            then ("name", library.sanitize opts.cluster_name) ∷ []
            else [])
          ++ (if is_set opts.cluster_description
              then ("description", library.base64_url (library.sanitize opts.cluster_description))
                ∷ []
              else [])))

  -- What an upload without an error did.
  pub record IsUploaded (clock : Clock) (readings : List (DataReading D)) (opts : Options)
      (before after : VenafiCloudClient) : Type 0 where
    pub body : String
    pub path : String
    pub parsed : library.Url
    pub is_payload :
        library.marshal (record {
          agent_metadata = before.agent_metadata;
          data_gather_time = clock.gathered;
          data_readings = readings;
        })
        ≡ ok body
    -- The path ends in one slash more, unless it ended in one.
    pub is_path : path ≡ (
        if ends_in_slash before.upload_path
        then before.upload_path
        else concat before.upload_path "/")
    pub is_parsed :
        library.parse_url (library.join_path (path ∷ before.uploader_id ∷ [])) ≡ ok parsed
    pub is_posted :
        IsPosted clock (with_options parsed opts) body (record before { upload_path = path }) after

  upload_err :
      (clock : Clock) (opts : Options) (body : String) (c : VenafiCloudClient) (e : VenafiError)
      → upload_url web library c opts ≡ err e
      → upload web library clock opts body c ≡ (some e, c)
  unfolding upload
  upload_err clock opts body c e failed = rw (failed, upload) refl

  upload_ok :
      (clock : Clock) (opts : Options) (body url : String) (c : VenafiCloudClient)
      → upload_url web library c opts ≡ ok url
      → upload web library clock opts body c ≡ (
        checked_status web library (post web library clock url body c).0,
        (post web library clock url body c).1,
      )
  unfolding upload
  upload_ok clock opts body url c made = rw (made, upload) refl

  upload-IsPosted :
      (clock : Clock) (opts : Options) (body : String) (c : VenafiCloudClient)
      → (upload web library clock opts body c).0 ≡ none
      → (parsed : library.Url) × (library.parse_url
            (library.join_path (c.upload_path ∷ c.uploader_id ∷ []))
          ≡ ok parsed)
        × IsPosted clock
            (library.with_query parsed (library.query parsed ++ upload_query web library opts))
            body
            c
            (upload web library clock opts body c).1
  unfolding upload_url
  upload-IsPosted clock opts body c h = elim (Result-cases (upload_url web library c opts)) [
    | inr (e, failed) ↦ let ran = upload_err clock opts body c e failed in cc
    | inl (url, made) ↦
        let (parsed, p, same) =
          >>=-eq-ok
            (map_err VenafiError.bad_url
              (library.parse_url (library.join_path (c.upload_path ∷ c.uploader_id ∷ []))))
            _ made in
        let is_url : url
            ≡ library.with_query parsed (library.query parsed ++ upload_query web library opts) =
          cc in
        let ran = upload_ok clock opts body url c made in
        let posted =
          post-IsPosted clock url body c
            (sym (ap (λ (r : Option VenafiError × VenafiCloudClient). r.0) ran) ∙ h) in
        (
          parsed,
          map_err_ok VenafiError.bad_url _ p,
          subst (λ (u : String). IsPosted clock u body c (upload web library clock opts body c).1)
              is_url
              (subst (IsPosted clock url body c)
                (sym (ap (λ (r : Option VenafiError × VenafiCloudClient). r.1) ran)) posted),
        )
  ]

  post_data_readings_with_options_err :
      (clock : Clock) (readings : List (DataReading D)) (opts : Options) (c : VenafiCloudClient)
      (e : String)
      → library.marshal (payload web library clock c readings) ≡ err e
      → post_data_readings_with_options web library clock readings opts c
        ≡ (some (VenafiError.not_marshalled e), c)
  unfolding post_data_readings_with_options
  post_data_readings_with_options_err clock readings opts c e failed =
      rw (failed, post_data_readings_with_options) refl

  post_data_readings_with_options_marshalled :
      (clock : Clock) (readings : List (DataReading D)) (opts : Options) (c : VenafiCloudClient)
      (body : String)
      → library.marshal (payload web library clock c readings) ≡ ok body
      → post_data_readings_with_options web library clock readings opts c
        ≡ upload web library clock opts body (with_slash web library c)
  unfolding post_data_readings_with_options
  post_data_readings_with_options_marshalled clock readings opts c body made =
      rw (made, post_data_readings_with_options) refl

  -- An upload without an error has posted the readings, with the agent's metadata and the time, to the
  -- upload path with the options as the query; the request carried a token, unless this is empty; and the
  -- answer was a success. The client held the token, which lasted for another minute when it was tested, or
  -- the server granted it to an assertion of the client that its key signed.
  pub cloud_post_ok :
      (clock : Clock) (readings : List (DataReading D)) (opts : Options) (c : VenafiCloudClient)
      → (post_data_readings_with_options web library clock readings opts c).0 ≡ none
      → IsUploaded clock readings opts c
          (post_data_readings_with_options web library clock readings opts c).1
  unfolding payload with_slash upload_query
  cloud_post_ok clock readings opts c h =
      elim (Result-cases (library.marshal (payload web library clock c readings))) [
        | inr (e, failed) ↦
            let ran = post_data_readings_with_options_err clock readings opts c e failed in cc
        | inl (body, made) ↦
            let ran = post_data_readings_with_options_marshalled clock readings opts c body made in
            let (parsed, p, posted) =
              upload-IsPosted clock opts body (with_slash web library c)
                (sym (ap (λ (r : Option VenafiError × VenafiCloudClient). r.0) ran) ∙ h) in
            record {
              body = body;
              path = (with_slash web library c).upload_path;
              parsed = parsed;
              is_payload = made;
              is_path = refl;
              is_parsed = p;
              is_posted =
                  subst
                    (IsPosted clock
                      (library.with_query parsed
                        (library.query parsed ++ upload_query web library opts))
                      body (with_slash web library c))
                    (sym (ap (λ (r : Option VenafiError × VenafiCloudClient). r.1) ran)) posted;
            }
      ]
