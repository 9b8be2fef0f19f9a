-- ===== src/Clients/VenConn/Uploads.antt =====
-- What an upload with a VenafiConnection without an error has sent, and with which token.
use mathlib.Core.List.{Memᴰ}
use jetstack_secure.Prelude.{
  ℕ, ◌≤◌, ◌<◌, ◌≡◌, ◌≢◌, refl, String, List, ◌&&◌, ◌⊎◌, inl, inr, Bool-cases, eq_iff,
}
use jetstack_secure.Prelude.Results.{ok, >>=-eq-ok, map_err, map_err_ok}
use jetstack_secure.Api.{DataReading}
use jetstack_secure.CyberArk.Publish.{Options}
use jetstack_secure.Clients.Http.{Request, Response, Web, is_success, is_success-inv, full_url}
use jetstack_secure.Clients.Http.Posts.{IsJsonPost, url_with_options}
use jetstack_secure.Clients.VenafiCloud.{Library}
use jetstack_secure.Clients.VenConn.{
  BackendAuth, ConnectionDetails, VenConnClient, VenConnError, supported, checked_token,
  checked_options, payload, is_ngts, upload_query, upload_request, checked_status,
  post_data_readings_with_options,
}

-- The connection gives a token for Venafi Cloud or NGTS.
pub record IsConnected (c : VenConnClient) (details : ConnectionDetails) : Type 0 where
  pub is_loaded : c.conn_handler c.install_ns c.ven_conn_ns c.ven_conn_name ≡ ok details
  pub is_supported :
      (details.backend_auth ≡ BackendAuth.vcp_access_token)
      ⊎ (details.backend_auth ≡ BackendAuth.ngts_access_token)
  pub has_token : details.credential ≢ ""

supported-inv :
    (auth : BackendAuth) (done : Unit {0})
    → supported auth ≡ ok done
    → (auth ≡ BackendAuth.vcp_access_token) ⊎ (auth ≡ BackendAuth.ngts_access_token)
unfolding supported
supported-inv BackendAuth.vcp_access_token done h = inl refl
supported-inv BackendAuth.ngts_access_token done h = inr refl
supported-inv _ done h = cc

checked_token-inv : (token : String) (done : Unit {0}) → checked_token token ≡ ok done → token ≢ ""
unfolding checked_token
checked_token-inv token done h e = let empty = (eq_iff token "").1 e in let h' = rw empty at h in cc

checked_options-inv :
    (opts : Options) (done : Unit {0}) → checked_options opts ≡ ok done → opts.cluster_name ≢ ""
unfolding checked_options
checked_options-inv opts done h e =
    let empty = (eq_iff opts.cluster_name "").1 e in let h' = rw empty at h in cc

module _ {D : Type 0} (web : Web) (library : Library D) where
  pub record IsUploaded (now : ℕ) (readings : List (DataReading D)) (opts : Options)
      (c : VenConnClient) : Type 0 where
    pub details : ConnectionDetails
    pub body : String
    pub url : library.Url
    pub request : Request
    pub response : Response
    pub has_cluster : opts.cluster_name ≢ ""
    pub is_connected : IsConnected c details
    pub is_payload :
        library.marshal (record {
          agent_metadata = c.agent_metadata;
          data_gather_time = now;
          data_readings = readings;
        })
        ≡ ok body
    pub is_url :
        library.parse_url (full_url details.base_url "/v1/tlspk/upload/clusterdata/no") ≡ ok url
    pub is_request :
        IsJsonPost request
          (url_with_options library url opts (is_ngts details.backend_auth && opts.claimable_certs))
          body
          details.credential
          library.user_agent
    pub is_answered : web.perform request ≡ ok response
    pub has_status : (200 ≤ response.status_code) × (response.status_code < 300)

  upload_request-IsJsonPost :
      (details : ConnectionDetails) (opts : Options) (url : library.Url) (body : String)
      → IsJsonPost
          (upload_request web library details opts url body)
          (url_with_options library url opts (is_ngts details.backend_auth && opts.claimable_certs))
          body
          details.credential
          library.user_agent
  unfolding upload_request upload_query
  upload_request-IsJsonPost details opts url body = record {
    is_url = refl;
    is_body = refl;
    is_json = Memᴰ.tail (Memᴰ.head refl);
    accepts_json = Memᴰ.head refl;
    has_agent = Memᴰ.tail (Memᴰ.tail (Memᴰ.tail (Memᴰ.head refl)));
    has_token = inr (Memᴰ.tail (Memᴰ.tail (Memᴰ.head refl)));
  }

  checked_status-inv :
      (response : Response) (done : Unit {0})
      → checked_status web library response ≡ ok done
      → (200 ≤ response.status_code) × (response.status_code < 300)
  unfolding checked_status
  checked_status-inv response done h = elim (Bool-cases (is_success response.status_code)) [
    | inl good ↦ is_success-inv response.status_code good
    | inr bad ↦ let h' = rw bad at h in cc
  ]

  -- An upload with a VenafiConnection without an error is for a cluster with a name; the connection gave a
  -- token that is not empty, for Venafi Cloud or NGTS; the readings, with the agent's metadata and the time,
  -- were posted with this token to the server of the connection, with the options as the query; and the
  -- answer was a success.
  pub ven_conn_post_ok :
      (now : ℕ) (readings : List (DataReading D)) (opts : Options) (c : VenConnClient)
      (done : Unit {0})
      → post_data_readings_with_options web library now readings opts c ≡ ok done
      → IsUploaded now readings opts c
  unfolding post_data_readings_with_options payload
  ven_conn_post_ok now readings opts c done h =
      let (named, has_name, h1) = >>=-eq-ok (checked_options opts) _ h in
      let (details, loaded, h2) =
        >>=-eq-ok
          (map_err VenConnError.loading (c.conn_handler c.install_ns c.ven_conn_ns c.ven_conn_name))
          _ h1 in
      let (allowed, known, h3) = >>=-eq-ok (supported details.backend_auth) _ h2 in
      let (there, has_token, h4) = >>=-eq-ok (checked_token details.credential) _ h3 in
      let (body, marshalled, h5) =
        >>=-eq-ok
          (map_err VenConnError.not_marshalled
            (library.marshal (payload web library now c readings)))
          _ h4 in
      let (url, parsed, h6) =
        >>=-eq-ok
          (map_err VenConnError.bad_url
            (library.parse_url (full_url details.base_url "/v1/tlspk/upload/clusterdata/no")))
          _ h5 in
      let (response, answered, h7) =
        >>=-eq-ok
          (map_err VenConnError.no_response
            (web.perform (upload_request web library details opts url body)))
          _ h6 in
      record {
        details = details;
        body = body;
        url = url;
        request = upload_request web library details opts url body;
        response = response;
        has_cluster = checked_options-inv opts named has_name;
        is_connected = record {
          is_loaded = map_err_ok VenConnError.loading _ loaded;
          is_supported = supported-inv details.backend_auth allowed known;
          has_token = checked_token-inv details.credential there has_token;
        };
        is_payload = map_err_ok VenConnError.not_marshalled _ marshalled;
        is_url = map_err_ok VenConnError.bad_url _ parsed;
        is_request = upload_request-IsJsonPost details opts url body;
        is_answered = map_err_ok VenConnError.no_response _ answered;
        has_status = checked_status-inv response done h7;
      }
