-- ===== src/Agent/Run.antt =====
-- pkg/agent/run.go: `Run`, from the configuration file to the end of the main loop, the recorder of
-- events, and the server of the probes.
pub mod Rounds
pub mod Tokens
use jetstack_secure.Prelude.{
  String, Bool, true, false, ◌||◌, Option, none, some, List, [], ◌∷◌, ◌++◌, ◌==◌, if◌then◌else◌,
}
use jetstack_secure.Prelude.Results.{Result, ok, err, ◌>>=◌}
use jetstack_secure.Prelude.Texts.{concat}
use jetstack_secure.Clients.{Client}
use jetstack_secure.Agent.Config.{Config, AgentCmdFlags, CombinedConfig, Environment, DataGatherer}
use jetstack_secure.Agent.Config.Errors.{ConfigError}
use jetstack_secure.Agent.Gather.{RoundError, Inputs, Backoff, gather_and_output_data}
use jetstack_secure.Agent.Config.Combine.{ClientFactory, validate_and_combine_config}
use jetstack_secure.Agent.Start.{
  Gatherer, StartError, ClientKind, EncryptorParts, secrets_encryptor, load_encryptor,
  start_gatherers,
}

-- One turn of the loop: what the round finds, and whether the wait after it ends with the context, and
-- not with the period.
pub record Turn (D : Type 0) : Type 0 where
  pub inputs : Inputs D
  pub is_done : Bool

-- The loop has not ended after the turns it was given, or it has returned an error or nil.
pub data Outcome : Type 0 where
  running : Outcome
  finished : Option RoundError → Outcome

-- What follows a round, with whether the loop ends if it had no error, and the turns after it.
unfoldable pub next_turn :
    {S : Type 0} → Bool → (S → Outcome × S) → Option RoundError × S → Outcome × S
next_turn ends go_on (some e, s) = (Outcome.finished (some e), s)
next_turn true go_on (none, s) = (Outcome.finished none, s)
next_turn false go_on (none, s) = go_on s

module _ {D : Type 0} (backoff : Backoff) (config : CombinedConfig) (client : Client D) where
  unfoldable pub run_loop : List (Turn D) → client.State → Outcome × client.State
  unfolding next_turn gather_and_output_data
  run_loop [] s = (Outcome.running, s)
  run_loop (turn ∷ turns) s =
      next_turn (config.one_shot || turn.is_done) (run_loop turns)
        (gather_and_output_data backoff config client turn.inputs s)

-- The variables that Kubernetes sets for a pod.
pub record Pod : Type 0 where
  pub name : String
  pub node : String
  pub uid : String
  pub namespace : String

pub data Recorder : Type 0 where
  disabled : Recorder
  recording : Pod → Recorder

unfoldable pub is_outside : Pod → Bool
is_outside pod = pod.name == "" || pod.node == "" || pod.uid == "" || pod.namespace == ""

-- `newEventf`, over the errors of the kubeconfig and of the client for events.
unfoldable pub new_eventf : Option String → Option String → Pod → Result String Recorder
unfolding is_outside
new_eventf kubeconfig event_client pod =
    if is_outside pod then ok Recorder.disabled else (elim kubeconfig [
      | some e ↦ err (concat "failed to load kubeconfig: " e)
      | none ↦ elim event_client [
        | some e ↦ err (concat "failed to create event client: " e)
        | none ↦ ok (Recorder.recording pod)
      ]
    ])

-- How the server ends: by itself, with the error of `ListenAndServe`, or with the context, with the errors
-- of `Shutdown` and `Close`.
pub data ServerEnd : Type 0 where
  server_stopped : String → ServerEnd
  cancelled : Option String → Option String → ServerEnd

unfoldable pub prefixed : String → Option String → List String
prefixed prefix none = []
prefixed prefix (some e) = concat prefix e ∷ []

-- The errors that are joined; none is nil.
unfoldable pub listen_and_serve : ServerEnd → List String
unfolding prefixed
listen_and_serve (ServerEnd.server_stopped e) = concat "ListenAndServe: " e ∷ []
listen_and_serve (ServerEnd.cancelled shutdown close) =
    prefixed "Shutdown: " shutdown ++ prefixed "Close: " close

pub data RunError : Type 0 where
  loading_config reading_config parsing_config event_recorder : String → RunError
  configuration : List ConfigError → RunError
  starting : StartError → RunError
  round : RoundError → RunError
  stopping : String → RunError
  -- The turns that the model was given are over, and the loop is not.
  not_over : RunError

unfoldable pub wrapped_as {ℓ κ} :
    {A : Type ℓ} {E : Type κ} → (E → RunError) → Result E A → Result RunError A
wrapped_as f (ok a) = ok a
wrapped_as f (err e) = err (f e)

-- The error of the loop, or nil.
unfoldable pub loop_result : Outcome → Option RunError
loop_result Outcome.running = some RunError.not_over
loop_result (Outcome.finished none) = none
loop_result (Outcome.finished (some e)) = some (RunError.round e)

-- The deferred function: the error of the group is added to that which is returned.
unfoldable pub with_group : Option String → Option RunError → List RunError
with_group none none = []
with_group none (some e) = e ∷ []
with_group (some g) none = RunError.stopping g ∷ []
with_group (some g) (some e) = e ∷ RunError.stopping g ∷ []

-- What `Run` calls: the file system, the parser of the configuration, the constructors of the clients
-- and the gatherers, the environment variables, and what the turns of the loop find.
pub record Surroundings (D : Type 0) : Type 1 where
  pub open_file : String → Result String String
  pub read_all : String → Result String String
  pub parse_config : String → Result String Config
  pub environment : Environment
  pub clients : ClientFactory
  pub client_of : clients.Client → Client D
  pub initial : (c : clients.Client) → (client_of c).State
  pub kind_of : clients.Client → ClientKind
  pub pod : Pod
  -- The errors of the kubeconfig and of the client for events, or nil.
  pub kubeconfig : Option String
  pub event_client : Option String
  pub to_lower : String → String
  pub ark_send_secret_values : String
  pub encryptor_parts : clients.Client → EncryptorParts
  pub new_data_gatherer : DataGatherer → Result String Gatherer
  pub turns : List (String × Gatherer) → List (Turn D)
  -- The error of `group.Wait`, or nil.
  pub group : Option String

module _ {D : Type 0} (backoff : Backoff) (env : Surroundings D) where
  open env use {clients}

  -- Before the deferred function is registered.
  unfoldable pub configured : AgentCmdFlags → Result RunError (CombinedConfig × clients.Client)
  unfolding wrapped_as validate_and_combine_config
  configured flags = do
    file ← wrapped_as RunError.loading_config (env.open_file flags.config_file_path)
    bytes ← wrapped_as RunError.reading_config (env.read_all file)
    cfg ← wrapped_as RunError.parsing_config (env.parse_config bytes)
    wrapped_as RunError.configuration
        (validate_and_combine_config clients env.environment cfg flags)

  -- The recorder of events, and the gatherers.
  unfoldable pub started :
      CombinedConfig → clients.Client → Result RunError (List (String × Gatherer))
  unfolding wrapped_as new_eventf secrets_encryptor load_encryptor start_gatherers
  started config c = do
    recorder ←
        wrapped_as RunError.event_recorder (new_eventf env.kubeconfig env.event_client env.pod)
    let encryptor =
        secrets_encryptor env.to_lower env.ark_send_secret_values
          (load_encryptor (env.encryptor_parts c) (env.kind_of c))
    wrapped_as RunError.starting (
        start_gatherers env.new_data_gatherer encryptor (env.kind_of c) config config.data_gatherers
          [])

  -- After it.
  unfoldable pub run_configured : CombinedConfig → clients.Client → Option RunError
  unfolding started loop_result run_loop
  run_configured config c = elim (started config c) [
    | err e ↦ some e
    | ok gatherers ↦
        loop_result
          (run_loop backoff config (env.client_of c) (env.turns gatherers) (env.initial c)).0
  ]

  -- The errors that `Run` returns; none is nil.
  unfoldable pub run : AgentCmdFlags → List RunError
  unfolding configured run_configured with_group
  run flags = elim (configured flags) [
    | err e ↦ e ∷ []
    | ok (config, c) ↦ with_group env.group (run_configured config c)
  ]
