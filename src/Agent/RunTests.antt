-- ===== src/Agent/RunTests.antt =====
-- Runs of the main loop with a small client, which answers from a list, and a back-off of two attempts.
use mathlib.Core.List.{Memᴰ}
use jetstack_secure.Prelude.{
  ℕ, ◌+◌, String, ◌≡◌, ◌↔◌, refl, subst, true, false, Option, none, some, List, [], ◌∷◌, inl,
}
use jetstack_secure.Prelude.Results.{ok, err, is_ok}
use jetstack_secure.Prelude.Int.{pos}
use jetstack_secure.Api.{DataReading}
use jetstack_secure.Clients.{Client}
use jetstack_secure.K8sDynamic.Redaction.{Encryptor}
use jetstack_secure.K8sDynamic.Fetch as K8sDynamicFetch
use jetstack_secure.Agent.Config.{CombinedConfig, OutputMode, DataGatherer}
use jetstack_secure.Agent.Gather.{
  Attempts, Backoff, Fetched, Inputs, RoundError, gather_data, gather_and_output_data,
}
use jetstack_secure.Agent.Gather.Collected.{
  IsGathered, HasFailed, gather_data-mem_iff, gather_data-err_iff,
}
use jetstack_secure.Clients.File.{FileSystem, Writer, new_file_client, write_readings}
use jetstack_secure.Agent.Gather.Filed.{IsFiled, gather_and_output_data-IsFiled}
use jetstack_secure.Prelude.{◌==◌, if◌then◌else◌}
use jetstack_secure.Agent.Gather.Sent.{IsSent, gather_and_output_data-IsSent}
use jetstack_secure.Agent.Run.{
  Turn, Outcome, run_loop, next_turn, ServerEnd, listen_and_serve, Pod, Recorder, new_eventf,
}
use jetstack_secure.Agent.Run.Tokens.{run_loop-HasGrantedToken}
use jetstack_secure.Clients.Oauth.Held.{HasGrantedToken}
use jetstack_secure.Clients.Oauth.Poster.{oauth_poster}
use jetstack_secure.Clients.Tests.{server, oauth_library, oauth_client, oauth_clock}
use jetstack_secure.Agent.Run.Rounds.{Ran, run_loop-Ran, run_loop_ends}
use jetstack_secure.Agent.Start.{
  ClientKind, EncryptorParts, Gatherer, configure, load_encryptor, secrets_encryptor,
  start_gatherers,
}
use jetstack_secure.Agent.Start.Sealed.{IsGranted}
use jetstack_secure.Agent.Start.Sealing.{KubeCluster, new_gatherer, start_new_gatherers-IsGranted}
use jetstack_secure.K8sDynamic.SetupTests.{selectors, deployments}

-- What the tests compute with.
computes : Unit {0}
unfolding gather_data gather_and_output_data run_loop start_gatherers configure load_encryptor
    secrets_encryptor next_turn new_gatherer
computes = tt

second_attempt : {S : Type 0} → (S → Option String × S) → Option String × S → Option String × S
second_attempt operation (none, s) = (none, s)
second_attempt operation (some e, s) = operation s

last_attempt :
    {S : Type 0} (operation : S → Option String × S) (s : S) (r : Option String × S)
    → operation s ≡ r
    → Attempts operation r s
last_attempt operation s (none, s') ran = Attempts.succeeded s' ran refl
last_attempt operation s (some e, s') ran = Attempts.gave_up s' e e ran refl

attempts_lem :
    {S : Type 0} (operation : S → Option String × S) (s : S) (r : Option String × S)
    → operation s ≡ r
    → Attempts operation (second_attempt operation r) s
unfolding second_attempt
attempts_lem operation s (none, s') ran = Attempts.succeeded s' ran refl
attempts_lem operation s (some e, s') ran =
    Attempts.again s' e ran (last_attempt operation s' (operation s') refl)

unfoldable two_attempts : Backoff
unfolding second_attempt attempts_lem
two_attempts = record {
  retry = λ operation s. second_attempt operation (operation s);
  retry_lem = λ operation s. attempts_lem operation s (operation s) refl;
}

-- The state is the errors of the next posts, and how many posts were made.
abbrev answer : List String → ℕ → Option String × (List String × ℕ)
answer [] n = (none, ([], n + 1))
answer (e ∷ es) n = (some e, (es, n + 1))

abbrev small_client : Client String
small_client = record {
  State = List String × ℕ;
  post_data_readings_with_options = λ readings opts s. answer s.0 s.1;
}

abbrev config : CombinedConfig
config = record {
  data_gatherers = [];
  period = pos 60;
  backoff_max_time = pos 600;
  install_ns = "venafi";
  strict_mode = false;
  one_shot = false;
  output_mode = OutputMode.jetstack_secure_api_token;
  cluster_id = "c1";
  server = "https://example.com";
  organization_id = "org";
  endpoint_path = "";
  upload_path = "";
  cluster_name = "web";
  cluster_description = "";
  claimable_certs = false;
  ven_conn_name = "";
  ven_conn_ns = "";
  exclude_annotation_keys_regex = [];
  exclude_label_keys_regex = [];
  tsg_id = "";
  ngts_server_url = "";
  output_path = "";
  input_path = "";
}

abbrev strict : CombinedConfig
strict = record config { strict_mode = true }

abbrev pods : Fetched String
pods = record { name = "pods"; result = ok ("[]", pos 0); instant = 7 }

abbrev broken : Fetched String
broken = record { name = "secrets"; result = err "forbidden"; instant = 8 }

abbrev inputs : Inputs String
inputs = record {
  read_file = λ path. err "missing";
  unmarshal = λ content. err "not JSON";
  fetched = pods ∷ broken ∷ [];
}

abbrev pods_reading : DataReading String
pods_reading = record {
  cluster_id = "c1";
  data_gatherer = "pods";
  timestamp = 7;
  content = "[]";
  schema_version = "v2.0.0";
}

gather_data_tests :
    (gather_data config inputs.fetched ≡ ok (pods_reading ∷ []))
    × (gather_data strict inputs.fetched
        ≡ err (RoundError.strict_mode (("secrets", "forbidden") ∷ [])))
unfolding computes
gather_data_tests = (refl, refl)

gather_data-mem_iff_example :
    (Memᴰ pods_reading (pods_reading ∷ []) ↔ IsGathered config inputs.fetched pods_reading)
    × (config.strict_mode ≡ true → ¬ HasFailed config inputs.fetched)
unfolding computes
gather_data-mem_iff_example =
    gather_data-mem_iff config inputs.fetched (pods_reading ∷ []) pods_reading refl

gather_data-err_iff_example :
    (is_ok (gather_data strict inputs.fetched) ≡ false)
    ↔ ((strict.strict_mode ≡ true) × HasFailed strict inputs.fetched)
gather_data-err_iff_example = gather_data-err_iff strict inputs.fetched

-- The second attempt is accepted.
retried_test :
    gather_and_output_data two_attempts config small_client inputs ("busy" ∷ [], 0)
    ≡ (none, ([], 2))
unfolding computes two_attempts
retried_test = refl

gather_and_output_data-IsSent_example :
    IsSent config small_client inputs
      ("busy" ∷ [], 0)
      (gather_and_output_data two_attempts config small_client inputs ("busy" ∷ [], 0)).1
unfolding computes two_attempts
gather_and_output_data-IsSent_example =
    gather_and_output_data-IsSent two_attempts config small_client inputs ("busy" ∷ [], 0) refl

-- The second wait ends with the context.
abbrev turns : List (Turn String)
turns =
    record { inputs = inputs; is_done = false } ∷ record { inputs = inputs; is_done = true } ∷ []

run_loop_tests :
    (run_loop two_attempts config small_client turns ("busy" ∷ [], 0)
      ≡ (Outcome.finished none, ([], 3)))
    × (run_loop two_attempts config small_client turns ("busy" ∷ "busy" ∷ [], 0)
        ≡ (Outcome.finished (some (RoundError.upload "post to server failed: busy")), ([], 2)))
    × (run_loop two_attempts (record config { one_shot = true }) small_client turns ([], 0)
        ≡ (Outcome.finished none, ([], 1)))
unfolding computes two_attempts
run_loop_tests = (refl, refl, refl)

run_loop-Ran_example :
    Ran two_attempts config small_client turns
      ("busy" ∷ [], 0)
      (run_loop two_attempts config small_client turns ("busy" ∷ [], 0)).1
      (run_loop two_attempts config small_client turns ("busy" ∷ [], 0)).0
run_loop-Ran_example = run_loop-Ran two_attempts config small_client turns ("busy" ∷ [], 0)

run_loop_ends_example :
    (result : Option RoundError) × ((run_loop two_attempts config small_client turns
        ("busy" ∷ [], 0)).0
      ≡ Outcome.finished result)
run_loop_ends_example = run_loop_ends two_attempts config small_client turns ("busy" ∷ [], 0) refl

run_loop-HasGrantedToken_example :
    HasGrantedToken server oauth_library
      (run_loop two_attempts config
        (oauth_poster server oauth_library (λ e. "failed") (λ n. oauth_clock))
        turns
        (oauth_client, 0)).1.0
run_loop-HasGrantedToken_example =
    run_loop-HasGrantedToken server oauth_library (λ e. "failed") (λ n. oauth_clock) two_attempts
      config turns oauth_client 0 (inl refl)

listen_and_serve_tests :
    (listen_and_serve (ServerEnd.cancelled none none) ≡ [])
    × (listen_and_serve (ServerEnd.server_stopped "port in use")
        ≡ "ListenAndServe: port in use" ∷ [])
unfolding listen_and_serve
listen_and_serve_tests = (refl, refl)

abbrev pod : Pod
pod = record { name = "agent"; node = "n1"; uid = "u1"; namespace = "venafi" }

new_eventf_tests :
    (new_eventf none none pod ≡ ok (Recorder.recording pod))
    × (new_eventf (some "no file") none (record pod { uid = "" }) ≡ ok Recorder.disabled)
unfolding new_eventf
new_eventf_tests = (refl, refl)

abbrev sealed : Encryptor
sealed s = ok (record { payload = s; kind = "JWE" })

abbrev parts : EncryptorParts
parts = record {
  ClientConfig = String;
  Fetcher = String;
  config = ok "config";
  new_fetcher = λ c. ok "fetcher";
  new_encryptor = λ f. ok sealed;
}

abbrev secrets : K8sDynamicFetch.DataGatherer
secrets = record {
  group_version_resource = record { group = ""; version = "v1"; resource = "secrets" };
  namespaces = [];
  redactor = record {
    exclude_annot_keys = [];
    exclude_label_keys = [];
    encryptor = none;
    include_last_modified_time = false;
  };
}

abbrev sections : List DataGatherer
sections =
    record { kind = "k8s-dynamic"; name = "ark/secrets"; data_path = ""; resource = "secrets" } ∷ []

abbrev cluster : KubeCluster
cluster = record {
  selectors = selectors;
  client_set = λ path. some "no clientset";
  dynamic_client = λ path. none;
  registration = none;
  config_of = λ dg. record deployments {
    group_version_resource = record { group = ""; version = "v1"; resource = dg.resource };
  };
  message = λ e. "no gatherer";
  others = λ dg. ok dg.name;
}

abbrev sealing : K8sDynamicFetch.DataGatherer
sealing = record secrets {
  redactor = record {
    exclude_annot_keys = [];
    exclude_label_keys = [];
    encryptor = some sealed;
    include_last_modified_time = true;
  };
}

start_gatherers_tests :
    start_gatherers
      (new_gatherer cluster)
      (secrets_encryptor (λ s. s) "true" (load_encryptor parts ClientKind.cyber_ark))
      ClientKind.cyber_ark
      config
      sections
      []
    ≡ ok (("ark/secrets", Gatherer.dynamic sealing) ∷ [])
unfolding computes
start_gatherers_tests = refl

start_new_gatherers-IsGranted_example :
    IsGranted (λ s. s) "true" parts ClientKind.cyber_ark sealing sealed
start_new_gatherers-IsGranted_example =
    start_new_gatherers-IsGranted cluster (λ s. s) "true" parts ClientKind.cyber_ark config sections
      (("ark/secrets", Gatherer.dynamic sealing) ∷ []) "ark/secrets" sealing sealed
      start_gatherers_tests (Memᴰ.head refl) refl

abbrev writer : Writer String
writer = record {
  marshal_indent = λ readings. ok "[pods]";
  write_file = λ path content files. ok (λ p. if p == path then some content else files p);
}

writer_lem :
    (content : String) (fs fs' : FileSystem)
    → writer.write_file "out.json" content fs ≡ ok fs'
    → fs' "out.json" ≡ some content
writer_lem content fs fs' h =
    let put : FileSystem = λ p. if p == "out.json" then some content else fs p in
    let same : put ≡ fs' = cc in
    subst (λ (files : FileSystem). files "out.json" ≡ some content) same refl

gather_and_output_data-IsFiled_example :
    IsFiled config writer "out.json" inputs
      (gather_and_output_data two_attempts config
        (new_file_client writer "out.json")
        inputs
        (λ path. none)).1
unfolding computes two_attempts write_readings
gather_and_output_data-IsFiled_example =
    gather_and_output_data-IsFiled writer "out.json" two_attempts config inputs (λ path. none)
      writer_lem refl
