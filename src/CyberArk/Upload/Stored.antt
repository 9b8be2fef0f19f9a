-- ===== src/CyberArk/Upload/Stored.antt =====
-- What a snapshot that was put without an error has gone through.
use mathlib.Core.List.{Memᴰ}
use jetstack_secure.Prelude.{
  [], ◌∷◌, refl, ℕ, ◌≤◌, ◌<◌, String, ◌≡◌, ◌≢◌, ap, ◌∙◌, true, eq_iff, inl, inr, Bool-cases,
}
use jetstack_secure.Prelude.Results.{ok, >>=-eq-ok, map_err, map_err_ok}
use jetstack_secure.Clients.Http.{
  Request, Response, is_success, is_success-inv, exchange, exchange-map_err_ok,
}
use jetstack_secure.CyberArk.Snapshot.{Snapshot}
use jetstack_secure.CyberArk.Upload.{
  CyberArkClient, Library, UploadError, api_path_snapshot_links, links_request, unauthenticated,
  with_telemetry, tagging, successful_body, retrieve_presigned_upload_url, put_request, accepted,
  named, put_snapshot,
}

module _ (c : CyberArkClient) (library : Library) where
  -- The inventory API gave the URL to an authenticated request for the snapshot.
  pub record IsPresigned (checksum cluster_id : String) (file_size : ℕ) (url username : String)
      : Type 0 where
    pub links_url : String
    pub asked : String
    pub authenticated : Request
    pub response : Response
    pub answer : String
    pub is_url : library.join_path c.base_url "/ingestions/kubernetes/snapshot-links" ≡ ok links_url
    pub is_asked :
        library.encode_request (record {
          cluster_id = cluster_id;
          checksum = checksum;
          agent_version = library.preflight_version;
          file_size = file_size;
          signature_version = "sigv4";
        })
        ≡ ok asked
    pub is_authenticated :
        c.authenticate_request (record {
          url = links_url;
          headers = ("Content-Type", "application/json") ∷ [];
          body = asked;
        })
        ≡ ok (username, authenticated)
    pub is_answered :
        c.posts.perform (record {
          url = authenticated.url;
          headers = ("User-Agent", library.user_agent) ∷ library.telemetry ∷ authenticated.headers;
          body = authenticated.body;
        })
        ≡ ok response
    pub has_status : (200 ≤ response.status_code) × (response.status_code < 300)
    pub is_read : response.body ≡ ok answer
    pub is_parsed : library.decode_url answer ≡ ok url

  -- The body is put at the URL, with its checksum, encrypted at rest, and with the tags that say whose
  -- snapshot of which cluster it is.
  pub record IsPut (request : Request) (snapshot : Snapshot) (body url username : String)
      : Type 0 where
    pub is_url : request.url ≡ url
    pub is_body : request.body ≡ body
    pub has_checksum : Memᴰ ("X-Amz-Checksum-Sha256", library.checksum_base64 body) request.headers
    pub is_encrypted : Memᴰ ("X-Amz-Server-Side-Encryption", "AES256") request.headers
    pub is_tagged :
        Memᴰ
          (
            "X-Amz-Tagging",
            library.encode_form (
                ("agent_version", snapshot.agent_version)
                ∷ ("tenant_id", c.tenant_uuid)
                ∷ ("upload_type", "k8s_snapshot")
                ∷ ("uploader_id", snapshot.cluster_id)
                ∷ ("username", username)
                ∷ ("vendor", "k8s")
                ∷ []),
          )
          request.headers
    pub has_agent : Memᴰ ("User-Agent", library.user_agent) request.headers

  -- The snapshot was put at the presigned URL, with its checksum.
  pub record IsStored (snapshot : Snapshot) : Type 0 where
    pub body : String
    pub url : String
    pub username : String
    pub put : Request
    pub response : Response
    pub has_cluster : snapshot.cluster_id ≢ ""
    pub is_encoded : library.encode_snapshot snapshot ≡ ok body
    pub is_presigned :
        IsPresigned (library.checksum_hex body) snapshot.cluster_id (library.size body) url username
    pub is_put : IsPut put snapshot body url username
    pub is_answered : c.puts.perform put ≡ ok response
    pub has_status : (200 ≤ response.status_code) × (response.status_code < 300)

  put_request-IsPut :
      (snapshot : Snapshot) (body url username : String)
      → IsPut (put_request c library snapshot body url username) snapshot body url username
  unfolding put_request tagging
  put_request-IsPut snapshot body url username = record {
    is_url = refl;
    is_body = refl;
    has_checksum = Memᴰ.head refl;
    is_encrypted = Memᴰ.tail (Memᴰ.head refl);
    is_tagged = Memᴰ.tail (Memᴰ.tail (Memᴰ.head refl));
    has_agent = Memᴰ.tail (Memᴰ.tail (Memᴰ.tail (Memᴰ.head refl)));
  }

  successful_body_ok :
      (response : Response) {body : String}
      → successful_body c library response ≡ ok body
      → (is_success response.status_code ≡ true) × (response.body ≡ ok body)
  unfolding successful_body
  successful_body_ok response h = elim (Bool-cases (is_success response.status_code)) [
    | inl good ↦ (good, map_err_ok UploadError.not_read response.body (rw good at h))
    | inr bad ↦ let h' = rw bad at h in cc
  ]

  accepted_ok :
      (response : Response) (done : Unit {0})
      → accepted c library response ≡ ok done
      → is_success response.status_code ≡ true
  unfolding accepted
  accepted_ok response done h = elim (Bool-cases (is_success response.status_code)) [
    | inl good ↦ good
    | inr bad ↦ let h' = rw bad at h in cc
  ]

  named_ok :
      (snapshot : Snapshot) (done : Unit {0})
      → named c library snapshot ≡ ok done
      → snapshot.cluster_id ≢ ""
  unfolding named
  named_ok snapshot done h e =
      let empty = (eq_iff snapshot.cluster_id "").1 e in let h' = rw empty at h in cc

  retrieve_presigned_upload_url_ok :
      (checksum cluster_id : String) (file_size : ℕ) (link : String × String)
      → retrieve_presigned_upload_url c library checksum cluster_id file_size ≡ ok link
      → IsPresigned checksum cluster_id file_size link.0 link.1
  unfolding retrieve_presigned_upload_url links_request unauthenticated with_telemetry
  retrieve_presigned_upload_url_ok checksum cluster_id file_size link h =
      let (url, joined, h1) =
        >>=-eq-ok
          (map_err UploadError.bad_url (library.join_path c.base_url api_path_snapshot_links)) _
          h in
      let (asked, encoded, h2) =
        >>=-eq-ok
          (map_err UploadError.not_encoded
            (library.encode_request (links_request c library checksum cluster_id file_size)))
          _ h1 in
      let (signed, known, h3) =
        >>=-eq-ok
          (map_err UploadError.no_authentication
            (c.authenticate_request (unauthenticated c library url asked)))
          _ h2 in
      let (response, answered, h4) =
        >>=-eq-ok
          (map_err UploadError.no_response (exchange c.posts (with_telemetry c library signed.1))) _
          h3 in
      let (answer, good, h5) = >>=-eq-ok (successful_body c library response) _ h4 in
      let (presigned, parsed, same) =
        >>=-eq-ok (map_err UploadError.not_parsed (library.decode_url answer)) _ h5 in
      let (status, read) = successful_body_ok response good in
      let is_link : (presigned, signed.0) ≡ link = cc in
      record {
        links_url = url;
        asked = asked;
        authenticated = signed.1;
        response = response;
        answer = answer;
        is_url = map_err_ok UploadError.bad_url _ joined;
        is_asked = map_err_ok UploadError.not_encoded _ encoded;
        is_authenticated =
            map_err_ok UploadError.no_authentication _ known
            ∙ ap (λ (l : String × String). ok (l.1, signed.1)) is_link;
        is_answered =
            exchange-map_err_ok UploadError.no_response c.posts (with_telemetry c library signed.1)
              answered;
        has_status = is_success-inv response.status_code status;
        is_read = read;
        is_parsed =
            map_err_ok UploadError.not_parsed _ parsed
            ∙ ap (λ (l : String × String). ok l.0) is_link;
      }

  -- A snapshot that was put without an error names its cluster; the inventory API gave a URL to the
  -- authenticated request with the cluster, the checksum and the size of the encoded snapshot; this was put
  -- there, with its checksum in base64 and with tags that name the tenant, the cluster and the user; and the
  -- answer was a success.
  pub put_snapshot-IsStored :
      (snapshot : Snapshot) (done : Unit {0})
      → put_snapshot c library snapshot ≡ ok done
      → IsStored snapshot
  unfolding put_snapshot
  put_snapshot-IsStored snapshot done h =
      let (is_named, has_name, h1) = >>=-eq-ok (named c library snapshot) _ h in
      let (body, encoded, h2) =
        >>=-eq-ok (map_err UploadError.not_encoded (library.encode_snapshot snapshot)) _ h1 in
      let (link, retrieved, h3) =
        >>=-eq-ok
          (map_err UploadError.retrieving (
            retrieve_presigned_upload_url c library (library.checksum_hex body) snapshot.cluster_id
              (library.size body)))
          _ h2 in
      let (response, answered, h4) =
        >>=-eq-ok
          (map_err UploadError.no_response
            (exchange c.puts (put_request c library snapshot body link.0 link.1)))
          _ h3 in
      record {
        body = body;
        url = link.0;
        username = link.1;
        put = put_request c library snapshot body link.0 link.1;
        response = response;
        has_cluster = named_ok snapshot is_named has_name;
        is_encoded = map_err_ok UploadError.not_encoded _ encoded;
        is_presigned =
            retrieve_presigned_upload_url_ok (library.checksum_hex body) snapshot.cluster_id
              (library.size body) link (map_err_ok UploadError.retrieving _ retrieved);
        is_put = put_request-IsPut snapshot body link.0 link.1;
        is_answered =
            exchange-map_err_ok UploadError.no_response c.puts
              (put_request c library snapshot body link.0 link.1) answered;
        has_status = is_success-inv response.status_code (accepted_ok response done h4);
      }
