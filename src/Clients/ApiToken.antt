-- ===== src/Clients/ApiToken.antt =====
-- pkg/client/client_api_token.go: the upload with an API token that does not change.
pub mod Uploads
use jetstack_secure.Prelude.{String, List, [], ◌∷◌, ◌==◌, if◌then◌else◌}
use jetstack_secure.Prelude.Results.{Result, ok, err, ◌>>=◌, map_err}
use jetstack_secure.Prelude.Texts.{concat}
use jetstack_secure.Prelude.{ℕ}
use jetstack_secure.Api.{DataReading, AgentMetadata, DataReadingsPost}
use jetstack_secure.CyberArk.Publish.{Options}
use jetstack_secure.Clients.Http.{Request, Response, Web, is_success, full_url, exchange}

pub record ApiTokenClient : Type 0 where
  pub api_token : String
  pub base_url : String
  pub agent_metadata : AgentMetadata

pub data ApiTokenError : Type 0 where
  empty_base_url : ApiTokenError
  not_marshalled no_response : String → ApiTokenError
  -- The status code, and the body or why it cannot be read.
  bad_status : ℕ → Result String String → ApiTokenError

unfoldable pub new_api_token_client :
    AgentMetadata → String → String → Result ApiTokenError ApiTokenClient
new_api_token_client metadata token base_url =
    if base_url == ""
    then err ApiTokenError.empty_base_url
    else ok (record { api_token = token; base_url = base_url; agent_metadata = metadata })

-- `filepath.Join`, `json.Marshal` and the user agent.
pub record Library (D : Type 0) : Type 0 where
  pub join_path : List String → String
  pub marshal : DataReadingsPost D → Result String String
  pub user_agent : String

module _ {D : Type 0} (web : Web) (library : Library D) (c : ApiTokenClient) where
  unfoldable pub post_request : String → String → Request
  unfolding full_url
  post_request path body = record {
    url = full_url c.base_url path;
    headers =
        ("Content-Type", "application/json")
        ∷ ("Authorization", concat "Bearer " c.api_token)
        ∷ ("User-Agent", library.user_agent)
        ∷ [];
    body = body;
  }

  unfoldable pub checked_status : Response → Result ApiTokenError (Unit {0})
  unfolding is_success
  checked_status response =
      if is_success response.status_code
      then ok tt
      else err (ApiTokenError.bad_status response.status_code response.body)

  -- The instant at which the data is gathered is an argument.
  unfoldable pub post_data_readings :
      ℕ → String → String → List (DataReading D) → Result ApiTokenError (Unit {0})
  unfolding post_request checked_status exchange
  post_data_readings now org_id cluster_id readings = do
    body ← map_err ApiTokenError.not_marshalled (
        library.marshal (record {
          agent_metadata = c.agent_metadata;
          data_gather_time = now;
          data_readings = readings;
        }))
    response ← map_err ApiTokenError.no_response (
        exchange web (
          post_request
            (library.join_path ("/api/v1/org" ∷ org_id ∷ "datareadings" ∷ cluster_id ∷ [])) body))
    checked_status response

  unfoldable pub post_data_readings_with_options :
      ℕ → List (DataReading D) → Options → Result ApiTokenError (Unit {0})
  unfolding post_data_readings
  post_data_readings_with_options now readings opts =
      post_data_readings now opts.org_id opts.cluster_id readings
