-- ===== src/Api.antt =====
-- api: the data that the agent sends.
pub mod Json
use jetstack_secure.Prelude.{ℕ, String, List}

-- `api.DataReading`, over the type of its data.
pub record DataReading (D : Type 0) : Type 0 where
  pub cluster_id : String
  pub data_gatherer : String
  pub timestamp : ℕ
  pub content : D
  pub schema_version : String

-- `api.AgentMetadata`.
pub record AgentMetadata : Type 0 where
  pub version : String
  pub cluster_id : String

-- `api.DataReadingsPost`.
pub record DataReadingsPost (D : Type 0) : Type 0 where
  pub agent_metadata : AgentMetadata
  pub data_gather_time : ℕ
  pub data_readings : List (DataReading D)
