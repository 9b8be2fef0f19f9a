-- ===== src/Agent/Gather.antt =====
-- pkg/agent/run.go: one round of the main loop. It gathers the readings, or reads them from a file, and
-- posts them, again and again until the client accepts them or the back-off gives up.
pub mod Collected
pub mod Sent
pub mod Filed
use jetstack_secure.Prelude.{
  ℕ, String, Bool, true, false, not, ◌&&◌, ◌≡◌, Option, none, some, List, [], ◌∷◌, is_set,
  if◌then◌else◌,
}
use jetstack_secure.Prelude.Results.{Result, ok, err, ◌>>=◌}
use jetstack_secure.Prelude.Lists.{is_empty}
use jetstack_secure.Prelude.Int.{ℤ}
use jetstack_secure.Prelude.Texts.{concat}
use jetstack_secure.Api.{DataReading}
use jetstack_secure.Clients.{Client}
use jetstack_secure.CyberArk.Publish.{Options}
use jetstack_secure.Agent.Config.{CombinedConfig}

abbrev pub schema_version : String
schema_version = "v2.0.0"

-- What `Fetch` of a named gatherer gave, with the number of resources, and the instant after it.
pub record Fetched (D : Type 0) : Type 0 where
  pub name : String
  pub result : Result String (D × ℤ)
  pub instant : ℕ

pub data RoundError : Type 0 where
  read_file unmarshal_file : String → RoundError
  -- The gatherers that failed, with their errors.
  strict_mode : List (String × String) → RoundError
  upload : String → RoundError

unfoldable pub options_of : CombinedConfig → Options
options_of config = record {
  org_id = config.organization_id;
  cluster_id = config.cluster_id;
  cluster_name = config.cluster_name;
  cluster_description = config.cluster_description;
  claimable_certs = config.claimable_certs;
}

unfoldable pub post_failed : {S : Type 0} → Option String × S → Option String × S
post_failed (none, s) = (none, s)
post_failed (some e, s) = (some (concat "post to server failed: " e), s)

unfoldable pub upload_failed : {S : Type 0} → Option String × S → Option RoundError × S
upload_failed (none, s) = (none, s)
upload_failed (some e, s) = (some (RoundError.upload e), s)

module _ {D : Type 0} where
  unfoldable pub reading_of : CombinedConfig → Fetched D → D → DataReading D
  reading_of config f gathered = record {
    cluster_id = config.cluster_id;
    data_gatherer = f.name;
    timestamp = f.instant;
    content = gathered;
    schema_version = schema_version;
  }

  -- One gatherer, before what the later ones give.
  unfoldable pub collect_one :
      CombinedConfig
      → Fetched D
      → Result String (D × ℤ)
      → List (DataReading D) × List (String × String)
      → List (DataReading D) × List (String × String)
  unfolding reading_of
  collect_one config f (err e) (readings, errors) = (readings, (f.name, e) ∷ errors)
  collect_one config f (ok (gathered, count)) (readings, errors) =
      (reading_of config f gathered ∷ readings, errors)

  -- The loop over the gatherers, in the order in which Go visits the map.
  unfoldable pub gather_loop :
      CombinedConfig → List (Fetched D) → List (DataReading D) × List (String × String)
  unfolding collect_one
  gather_loop config [] = ([], [])
  gather_loop config (f ∷ fs) = collect_one config f f.result (gather_loop config fs)

  unfoldable pub gather_data :
      CombinedConfig → List (Fetched D) → Result RoundError (List (DataReading D))
  unfolding gather_loop
  gather_data config fs =
      let (readings, errors) = gather_loop config fs in
      if config.strict_mode && not (is_empty errors)
      then err (RoundError.strict_mode errors)
      else ok readings

  -- `os.ReadFile`, then `json.Unmarshal`.
  unfoldable pub read_local :
      (String → Result String String)
      → (String → Result String (List (DataReading D)))
      → String
      → Result RoundError (List (DataReading D))
  read_local read unmarshal path = elim (read path) [
    | err e ↦ err (RoundError.read_file e)
    | ok content ↦ elim (unmarshal content) [
      | err e ↦ err (RoundError.unmarshal_file e)
      | ok readings ↦ ok readings
    ]
  ]

  unfoldable pub post_data :
      CombinedConfig
      → (client : Client D) → List (DataReading D)
      → client.State
      → Option String × client.State
  unfolding options_of post_failed
  post_data config client readings s =
      post_failed (client.post_data_readings_with_options readings (options_of config) s)

-- What a retried operation may do: attempts that failed, then one that succeeded, or one that failed and
-- an error, which may be that of the context.
pub data Attempts {S : Type 0} (operation : S → Option String × S) (result : Option String × S)
    : S → Type 0 where
  succeeded :
      {s : S} (s' : S)
      → operation s ≡ (none, s')
      → result ≡ (none, s')
      → Attempts operation result s
  gave_up :
      {s : S} (s' : S) (e reported : String)
      → operation s ≡ (some e, s')
      → result ≡ (some reported, s')
      → Attempts operation result s
  again :
      {s : S} (s' : S) (e : String)
      → operation s ≡ (some e, s')
      → Attempts operation result s'
      → Attempts operation result s

-- `backoff.Retry`, which makes an attempt before it can give up, and none after a success.
pub record Backoff : Type 1 where
  pub retry : {S : Type 0} → (S → Option String × S) → S → Option String × S
  pub retry_lem :
      {S : Type 0} (operation : S → Option String × S) (s : S)
      → Attempts operation (retry operation s) s

-- What a round finds: the file system, and what the gatherers give.
pub record Inputs (D : Type 0) : Type 0 where
  pub read_file : String → Result String String
  pub unmarshal : String → Result String (List (DataReading D))
  pub fetched : List (Fetched D)

unfoldable pub readings_of :
    {D : Type 0} → CombinedConfig → Inputs D → Result RoundError (List (DataReading D))
unfolding read_local gather_data
readings_of config inputs =
    if is_set config.input_path
    then read_local inputs.read_file inputs.unmarshal config.input_path
    else gather_data config inputs.fetched

module _ {D : Type 0} (backoff : Backoff) (config : CombinedConfig) (client : Client D) where
  -- The error of the round or nil, and the state of the client.
  unfoldable pub gather_and_output_data : Inputs D → client.State → Option RoundError × client.State
  unfolding readings_of post_data upload_failed
  gather_and_output_data inputs s = elim (readings_of config inputs) [
    | err e ↦ (some e, s)
    | ok readings ↦ upload_failed (backoff.retry (post_data config client readings) s)
  ]
