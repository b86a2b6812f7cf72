-- ===== src/Command.antt =====
-- cmd/controller/main.go: the command, from its flags to its exit status. The configuration of the
-- client is given: GetConfigOrDie has returned it. Log lines are not modelled.
pub mod Status
use apheleia.Base.{ℕ, String, Bool, false, Option, none, some}
use apheleia.Platform.{Reply, ok, err}
use apheleia.Exec.{on_option}
use apheleia.Manager.{Library, Options, new_manager}
use apheleia.Manager.Steps.{Step, ◌>>=◌, ◌>>◌}

pub record Flags : Type 0 where
  pub metrics_addr : String
  pub probe_addr : String
  pub ab_api_export_name : String
  pub enable_leader_election : Bool

-- The defaults.
abbrev pub default_flags : Flags
default_flags = record {
  metrics_addr = ":8080";
  probe_addr = ":8081";
  ab_api_export_name = "jvm-build-service";
  enable_leader_election = false;
}

-- The exit status is 1 for an error, and that of Go for a panic is 2.
abbrev pub exit_status : {S A : Type 0} → Option (Reply A) × S → ℕ × S
exit_status (none, s) = (2, s)
exit_status (some (err e), s) = (1, s)
exit_status (some (ok a), s) = (0, s)

module _ (L : Library) where
  unfoldable pub options_of : Flags → Options L
  options_of flags = record {
    metrics_bind_address = flags.metrics_addr;
    port = 9443;
    health_probe_bind_address = flags.probe_addr;
    leader_election = flags.enable_leader_election;
    leader_election_id = "5483be8f.redhat.com";
    scheme = none;
    new_cache = none;
  }

  -- What follows the making of the manager.
  unfoldable pub run_made : Reply L.Manager → Step L.State (Unit {0})
  run_made (err e) s = (err e, s)
  run_made (ok mgr) s =
      (do L.add_healthz_check mgr "healthz"; L.add_readyz_check mgr "readyz"; L.start_manager mgr) s

  -- The steps that may fail.
  unfoldable pub run_manager : Flags → L.Config → L.State → Option (Reply (Unit {0})) × L.State
  unfolding options_of run_made
  run_manager flags rest_config s =
      let (o, s') = new_manager L rest_config (options_of flags) s in
      on_option o (none, s') λ r. let (r', s'') = run_made r s' in (some r', s'')

  unfoldable pub main : Flags → L.Config → L.State → ℕ × L.State
  unfolding run_manager
  main flags rest_config s = exit_status (run_manager flags rest_config s)
