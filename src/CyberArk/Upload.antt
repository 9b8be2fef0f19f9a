-- ===== src/CyberArk/Upload.antt =====
-- internal/cyberark/dataupload/dataupload.go: `PutSnapshot`, which asks the inventory API for a presigned
-- URL and puts the snapshot there, with its checksum.
pub mod Stored
use jetstack_secure.Prelude.{
  ℕ, String, Bool, true, false, Option, none, some, List, [], ◌∷◌, ◌==◌, if◌then◌else◌,
}
use jetstack_secure.Prelude.Results.{Result, ok, err, ◌>>=◌, map_err}
use jetstack_secure.Prelude.Texts.{concat}
use jetstack_secure.Clients.Http.{Request, Response, Web, is_success, exchange}
use jetstack_secure.CyberArk.Snapshot.{Snapshot}

abbrev pub api_path_snapshot_links : String
api_path_snapshot_links = "/ingestions/kubernetes/snapshot-links"

abbrev pub sig_v4_support : String
sig_v4_support = "sigv4"

pub record RetrievePresignedUploadUrlRequest : Type 0 where
  pub cluster_id : String
  pub checksum : String
  pub agent_version : String
  pub file_size : ℕ
  pub signature_version : String

-- `CyberArkClient`, with the web for each of the two methods.
pub record CyberArkClient : Type 0 where
  pub posts : Web
  pub puts : Web
  pub base_url : String
  pub tenant_uuid : String
  -- The user's name, and the request with the user's token.
  pub authenticate_request : Request → Result String (String × Request)

-- Packages crypto/sha256, encoding/json and net/url, the version and the telemetry header.
pub record Library : Type 0 where
  pub encode_snapshot : Snapshot → Result String String
  pub encode_request : RetrievePresignedUploadUrlRequest → Result String String
  -- The `url` of a response of limited size.
  pub decode_url : String → Result String String
  pub checksum_hex : String → String
  pub checksum_base64 : String → String
  pub size : String → ℕ
  pub join_path : String → String → Result String String
  pub encode_form : List (String × String) → String
  pub preflight_version : String
  pub user_agent : String
  pub telemetry : String × String

pub data UploadError : Type 0 where
  empty_cluster_id : UploadError
  not_encoded bad_url no_authentication no_response not_parsed not_read : String → UploadError
  -- The status code, and the start of the body.
  status : ℕ → Result String String → UploadError
  retrieving : UploadError → UploadError

module _ (c : CyberArkClient) (library : Library) where
  unfoldable pub links_request : String → String → ℕ → RetrievePresignedUploadUrlRequest
  links_request checksum cluster_id file_size = record {
    cluster_id = cluster_id;
    checksum = checksum;
    agent_version = library.preflight_version;
    file_size = file_size;
    signature_version = sig_v4_support;
  }

  -- The request to the inventory API, before it is authenticated.
  unfoldable pub unauthenticated : String → String → Request
  unauthenticated url body = record {
    url = url;
    headers = ("Content-Type", "application/json") ∷ [];
    body = body;
  }

  unfoldable pub with_telemetry : Request → Request
  with_telemetry request = record {
    url = request.url;
    headers = ("User-Agent", library.user_agent) ∷ library.telemetry ∷ request.headers;
    body = request.body;
  }

  -- The body of a successful response.
  unfoldable pub successful_body : Response → Result UploadError String
  unfolding is_success
  successful_body response =
      if is_success response.status_code
      then map_err UploadError.not_read response.body
      else err (UploadError.status response.status_code response.body)

  -- The presigned URL and the user's name.
  unfoldable pub retrieve_presigned_upload_url :
      String → String → ℕ → Result UploadError (String × String)
  unfolding links_request unauthenticated with_telemetry successful_body exchange
  retrieve_presigned_upload_url checksum cluster_id file_size = do
    url ← map_err UploadError.bad_url (library.join_path c.base_url api_path_snapshot_links)
    body ←
        map_err UploadError.not_encoded
          (library.encode_request (links_request checksum cluster_id file_size))
    authenticated ←
        map_err UploadError.no_authentication (c.authenticate_request (unauthenticated url body))
    response ← map_err UploadError.no_response (exchange c.posts (with_telemetry authenticated.1))
    answer ← successful_body response
    presigned ← map_err UploadError.not_parsed (library.decode_url answer)
    ok (presigned, authenticated.0)

  unfoldable pub tagging : Snapshot → String → String
  tagging snapshot username = library.encode_form (
      ("agent_version", snapshot.agent_version)
      ∷ ("tenant_id", c.tenant_uuid)
      ∷ ("upload_type", "k8s_snapshot")
      ∷ ("uploader_id", snapshot.cluster_id)
      ∷ ("username", username)
      ∷ ("vendor", "k8s")
      ∷ [])

  unfoldable pub put_request : Snapshot → String → String → String → Request
  unfolding tagging
  put_request snapshot body url username = record {
    url = url;
    headers =
        ("X-Amz-Checksum-Sha256", library.checksum_base64 body)
        ∷ ("X-Amz-Server-Side-Encryption", "AES256")
        ∷ ("X-Amz-Tagging", tagging snapshot username)
        ∷ ("User-Agent", library.user_agent)
        ∷ [];
    body = body;
  }

  unfoldable pub accepted : Response → Result UploadError (Unit {0})
  unfolding is_success
  accepted response =
      if is_success response.status_code
      then ok tt
      else err (UploadError.status response.status_code response.body)

  unfoldable pub named : Snapshot → Result UploadError (Unit {0})
  named snapshot = if snapshot.cluster_id == "" then err UploadError.empty_cluster_id else ok tt

  unfoldable pub put_snapshot : Snapshot → Result UploadError (Unit {0})
  unfolding named retrieve_presigned_upload_url put_request exchange accepted
  put_snapshot snapshot = do
    has_name ← named snapshot
    body ← map_err UploadError.not_encoded (library.encode_snapshot snapshot)
    link ← map_err UploadError.retrieving (
        retrieve_presigned_upload_url (library.checksum_hex body) snapshot.cluster_id
          (library.size body))
    response ←
        map_err UploadError.no_response (exchange c.puts (put_request snapshot body link.0 link.1))
    accepted response
