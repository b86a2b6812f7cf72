-- ===== src/Tests/Local.antt =====
-- A library in memory, as a `Library` for the tests: each call that may fail succeeds, and the
-- state counts the calls.
use apheleia.Base.{
  ℕ, suc, String, ◌≡◌, refl, Bool, true, false, List, [], ◌∷◌, ◌++◌, none, some, ◌≢◌, arith, eq_iff,
}
use apheleia.Platform.{Reply, ok, err, Error}
use apheleia.Exec.{on_reply}
use apheleia.Manager.{Library, Options, new_manager}
use apheleia.Manager.Schemes.{BuildsInOrder}
use apheleia.Manager.Options.{PollsUntil, Outcome, new_manager-Outcome}
use apheleia.Command.{default_flags, main}
use apheleia.Command.Status.{HasEnded, main-HasEnded}
use apheleia.Client.Factory.{SharedInformerFactory, start, informer_for}
use apheleia.Client.Factory.Shared.{idle, AreMarked, start-runs, informer_for-again}

abbrev timed_out : Error
timed_out = record { reason = "Timeout"; message = "timed out waiting for the condition" }

abbrev counted : {A : Type 0} → A → ℕ → Reply A × ℕ
counted a s = (ok a, suc s)

abbrev polled : Reply Bool × ℕ → Reply (Unit {0}) × ℕ
polled (ok true, s) = (ok tt, s)
polled (ok false, s) = (err timed_out, s)
polled (err e, s) = (err e, s)

abbrev all_of : List (List String → Reply (List String)) → List String → Reply (List String)
all_of [] scheme = ok scheme
all_of (f ∷ fs) scheme = on_reply (f scheme) (λ e. err e) (all_of fs)

abbrev pub local : Library
local = record {
  State = ℕ;
  Config = Unit;
  Scheme = List String;
  Selector = List String;
  Requirement = String;
  NewCache = ℕ;
  Manager = String;
  Client = String;
  CrdClient = String;
  Recorder = String;
  poll_immediate = λ interval timeout condition s. polled (condition s);
  new_crd_client_or_die = λ cfg. some "definitions";
  get_crd = λ client name. counted tt;
  new_scheme = [];
  add_client_go = λ scheme. ok ("core" ∷ scheme);
  add_jvmbs = λ scheme. ok ("jvmbs" ∷ scheme);
  add_pipeline = λ scheme. ok ("tekton" ∷ scheme);
  add_types = λ scheme gv kinds. kinds ++ scheme;
  add_to_group_version = λ scheme gv. gv.version ∷ scheme;
  build_scheme = all_of;
  new_selector = [];
  new_requirement = λ key operator values. ok key;
  add = λ selector requirement. requirement ∷ selector;
  builder_with_options = λ selectors. 1;
  new_ctrl_manager = λ cfg options. counted "manager";
  get_client = λ mgr. "client";
  get_scheme = λ mgr. [];
  get_event_recorder_for = λ mgr name. name;
  add_healthz_check = λ mgr name. counted tt;
  add_readyz_check = λ mgr name. counted tt;
  start_manager = λ mgr. counted tt;
  complete_controller = λ mgr kind watches r. counted tt;
}

pub local-BuildsInOrder : BuildsInOrder local
unfolding on_reply
local-BuildsInOrder = record { build_scheme-nil = λ s. refl; build_scheme-cons = λ f fs s. refl }

polled_lem : (r : Reply Bool × ℕ) (s : ℕ) → polled r ≡ (ok tt, s) → r.0 ≡ ok true
polled_lem (ok true, x) s h = refl
polled_lem (ok false, x) s h = absurd cc
polled_lem (err e, x) s h = absurd cc

local-PollsUntil : PollsUntil local
local-PollsUntil = record {
  poll_immediate-met = λ interval timeout condition s s' h. (s, polled_lem (condition s) s' h);
}

abbrev no_options : Options local
no_options = record {
  metrics_bind_address = "";
  port = 0;
  health_probe_bind_address = "";
  leader_election = false;
  leader_election_id = "";
  scheme = none;
  new_cache = none;
}

new_manager-Outcome_example : Outcome local tt no_options (new_manager local tt no_options 0)
new_manager-Outcome_example =
    new_manager-Outcome local local-BuildsInOrder local-PollsUntil tt no_options 0

main-HasEnded_example : HasEnded local default_flags tt (main local default_flags tt 0)
main-HasEnded_example = main-HasEnded local default_flags tt local-BuildsInOrder local-PollsUntil 0

abbrev two_informers : List (String × String)
two_informers = ("ComponentBuild", "a") ∷ ("ArtifactBuild", "b") ∷ []

abbrev factory : SharedInformerFactory String String String
factory = record {
  client = "client";
  namespace = "default";
  tweak_list_options = none;
  default_resync = 30;
  custom_resync = [];
  informers = two_informers;
  started_informers = ("ComponentBuild", true) ∷ [];
}

start-runs_example :
    ((start two_informers factory).0 ≡ idle two_informers factory.started_informers)
    × AreMarked two_informers (start two_informers factory).1.started_informers
start-runs_example = start-runs two_informers factory ((distinct, tt), (tt, tt))
  where
    distinct : ◌≢◌ {A = String} "ComponentBuild" "ArtifactBuild"
    distinct = ground (arith, eq_iff "ComponentBuild" "ArtifactBuild")

informer_for-again_example :
    informer_for "DependencyBuild"
      (λ c n. "other")
      (informer_for "DependencyBuild" (λ c n. "new") factory).1
    ≡ informer_for "DependencyBuild" (λ c n. "new") factory
informer_for-again_example =
    informer_for-again "DependencyBuild" (λ c n. "new") (λ c n. "other") factory
