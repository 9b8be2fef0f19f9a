-- ===== src/Agent/Config/Settings.antt =====
-- pkg/agent/config.go: the sections of `ValidateAndCombineConfig` on the data gatherers, the period,
-- the namespaces, the paths and the excluded keys.
use jetstack_secure.Prelude.{
  ℕ, ◌+◌, String, ◌&&◌, Option, none, some, List, [], ◌∷◌, ◌++◌, ◌==◌, is_set, if◌then◌else◌,
}
use jetstack_secure.Prelude.Int.{ℤ, pos, is_zero, is_positive}
use jetstack_secure.Agent.Config.{
  Config, DataGatherer, AgentCmdFlags, OutputMode, Environment, Regexp,
}
use jetstack_secure.Agent.Config.Errors.{ConfigError}
use jetstack_secure.Agent.Config.Mode.{error_if}
use jetstack_secure.Agent.Config.Sections.{Checked}

-- The loop of `ValidateDataGatherers`; messages count from one.
unfoldable pub gatherer_errors : ℕ → List DataGatherer → List ConfigError
unfolding error_if
gatherer_errors i [] = []
gatherer_errors i (dg ∷ dgs) =
    error_if (dg.kind == "") (ConfigError.gatherer_without_kind (i + 1))
    ++ (error_if (dg.name == "") (ConfigError.gatherer_without_name (i + 1))
        ++ gatherer_errors (i + 1) dgs)

unfoldable pub validate_data_gatherers : List DataGatherer → List ConfigError
unfolding gatherer_errors
validate_data_gatherers dgs = gatherer_errors 0 dgs

-- The period, from the flag, or else from the configuration file. A case that none of the tests
-- covers leaves it at zero.
unfoldable pub combine_period : Config → AgentCmdFlags → Checked ℤ
combine_period cfg flags =
    if flags.one_shot
    then record { value = pos 0; errors = [] }
    else if is_zero flags.period && is_zero cfg.period
    then record { value = pos 0; errors = ConfigError.period_required ∷ [] }
    else if is_zero flags.period && is_positive cfg.period
    then record { value = cfg.period; errors = [] }
    else if is_positive flags.period && is_zero cfg.period
    then record { value = flags.period; errors = [] }
    else if is_positive flags.period && is_positive cfg.period
    then record { value = flags.period; errors = [] }
    else record { value = pos 0; errors = [] }

-- `getInClusterNamespace`.
unfoldable pub get_in_cluster_namespace : Environment → Option String
get_in_cluster_namespace env = if is_set env.pod_namespace then some env.pod_namespace else none

unfoldable pub no_namespace : OutputMode → List ConfigError
no_namespace OutputMode.venafi_connection = ConfigError.no_install_namespace ∷ []
no_namespace _ = []

unfoldable pub combine_install_ns : Environment → OutputMode → AgentCmdFlags → Checked String
unfolding get_in_cluster_namespace no_namespace
combine_install_ns env mode flags =
    if is_set flags.install_ns
    then record { value = flags.install_ns; errors = [] }
    else (elim (get_in_cluster_namespace env) [
      | some ns ↦ record { value = ns; errors = [] }
      | none ↦ record { value = ""; errors = no_namespace mode }
    ])

-- --venafi-connection and --venafi-connection-namespace: the name and the namespace.
unfoldable pub combine_ven_conn : OutputMode → String → AgentCmdFlags → String × String
combine_ven_conn OutputMode.venafi_connection install_ns flags =
    (flags.ven_conn_name, if flags.ven_conn_ns == "" then install_ns else flags.ven_conn_ns)
combine_ven_conn _ install_ns flags = ("", "")

-- A flag takes precedence over the configuration file.
unfoldable pub flag_or : String → String → String
flag_or flag value = if is_set flag then flag else value

-- The patterns that compile, and an error for each one that does not.
unfoldable pub compile_all :
    Environment → (ℕ → ConfigError) → ℕ → List String → Checked (List Regexp)
compile_all env invalid i [] = record { value = []; errors = [] }
compile_all env invalid i (regex ∷ regexes) =
    let rest = compile_all env invalid (i + 1) regexes in
    elim (env.compile regex) [
      | none ↦ record { value = rest.value; errors = invalid i ∷ rest.errors }
      | some r ↦ record { value = r ∷ rest.value; errors = rest.errors }
    ]
