-- ===== src/Tests/Deployed.antt =====
-- The theorems on the course of a ComponentBuild at concrete data: a cluster in memory where the
-- artifact of the scenario stays built and deployed.
use apheleia.Base.{◌≡◌, refl, true, some, [], ◌∷◌, All, count, arith, eq_iff}
use apheleia.Api.{ComponentBuild}
use apheleia.Platform.{Platform, DependencyBuild, Reply, ok}
use apheleia.Platform.Laws.{IsFaithful, IsReliable}
use apheleia.Exec.{World}
use apheleia.Reconciler.Artifact.{dependency_build_name}
use apheleia.Reconciler.Component.{config_of, is_incomplete, handle_component_build_received}
use apheleia.Reconciler.Component.Status.{Wrote}
use apheleia.Reconciler.Component.Convergence.{
  StaysDeployed, IsComplete, handle_component_build_received_completes,
}
use apheleia.Reconciler.Component.Bounds.{
  IsBounded, is_notification, handle_component_build_received-IsBounded,
}
use apheleia.Reconciler.Component.Reported.{handle_component_build_received_reported}
use apheleia.Reconciler.Consistency.{HoldsSound, WritesConsistent, reconcile-WritesConsistent}
use apheleia.Reconciler.Consistency.Component.{IsSound}
use apheleia.Reconciler.Dispatch.{reconcile}
use apheleia.Tests.Memory.{memory, memory-IsFaithful, memory-IsReliable}
use apheleia.Tests.Scenario.{start, at_key, test_cb, gav, test_abr, test_ra, test_db}

abbrev pub marked_db : DependencyBuild
marked_db = record test_db {
  metadata = record test_db.metadata { annotations = some (("io.aphelia/deployed", "true") ∷ []) };
}

-- The cluster in memory, with the objects of the scenario in their last state.
abbrev pub settled_memory : Platform
settled_memory = record memory {
  get_artifact_build = λ k c. (ok test_abr, c);
  get_rebuilt_artifact = λ k c. (ok test_ra, c);
  get_dependency_build = λ k c. (ok marked_db, c);
}

pub settled_memory-IsFaithful : IsFaithful settled_memory
settled_memory-IsFaithful = record {
  create-state = λ abr created c e. ground arith;
  failed-ne_empty = memory-IsFaithful.failed-ne_empty;
  missing-ne_empty = memory-IsFaithful.missing-ne_empty;
  complete-ne_empty = memory-IsFaithful.complete-ne_empty;
  complete-ne-failed = memory-IsFaithful.complete-ne-failed;
  complete-ne-missing = memory-IsFaithful.complete-ne-missing;
  range-perm = memory-IsFaithful.range-perm;
}

pub settled_memory-IsReliable : IsReliable settled_memory
settled_memory-IsReliable = record {
  config = memory-IsReliable.config;
  creates = memory-IsReliable.creates;
  lists = memory-IsReliable.lists;
  notifies = memory-IsReliable.notifies;
  parses = memory-IsReliable.parses;
  updates = memory-IsReliable.updates;
}

settled_memory-StaysDeployed : StaysDeployed settled_memory "default" gav
unfolding dependency_build_name
settled_memory-StaysDeployed = record {
  abr = test_abr;
  reads = λ c. refl;
  completes = refl;
  ra = test_ra;
  rebuilds = λ c. refl;
  names = ground (arith, eq_iff "test-db" "");
  db = marked_db;
  builds = λ c. refl;
  marks = refl;
}

abbrev pub settled_world : World settled_memory
settled_world = record { cluster = start; requests = [] }

handle_component_build_received_completes_example :
    ((handle_component_build_received settled_memory test_cb settled_world).0 ≡ some (ok tt))
    × Wrote IsComplete
        (ok tt)
        (handle_component_build_received settled_memory test_cb settled_world).1.requests
unfolding is_incomplete config_of
handle_component_build_received_completes_example =
    handle_component_build_received_completes settled_memory settled_memory-IsFaithful
      settled_memory-IsReliable test_cb settled_world (tt, tt) refl
      (settled_memory-StaysDeployed, tt)

handle_component_build_received-IsBounded_example :
    (r : Reply (Unit {0})) × ((handle_component_build_received settled_memory test_cb
        settled_world).0
      ≡ some r)
    × IsBounded settled_world.requests
        (handle_component_build_received settled_memory test_cb settled_world).1.requests
        (gav ∷ [])
handle_component_build_received-IsBounded_example =
    handle_component_build_received-IsBounded settled_memory test_cb settled_world

-- The ComponentBuild when its failure was reported.
abbrev reported_cb : ComponentBuild
reported_cb = record test_cb {
  spec = record test_cb.spec { pr_url = "https://test.com/pr/1" };
  status = record test_cb.status { state = "ComponentBuildFailed"; result_notified = true };
}

handle_component_build_received_reported_example :
    (r : Reply (Unit {0})) × ((handle_component_build_received settled_memory reported_cb
        settled_world).0
      ≡ some r)
    × (count is_notification
          (handle_component_build_received settled_memory reported_cb settled_world).1.requests
        ≡ 0)
handle_component_build_received_reported_example =
    handle_component_build_received_reported settled_memory reported_cb settled_world refl

-- The cluster in memory that has the ComponentBuild of the scenario alone.
abbrev one_component : Platform
one_component = record settled_memory {
  get_component_build = λ k c. (ok test_cb, c);
  list_component_builds = λ ns c. (ok (record { items = test_cb ∷ [] }), c);
}

one_component-IsFaithful : IsFaithful one_component
one_component-IsFaithful = record {
  create-state = settled_memory-IsFaithful.create-state;
  failed-ne_empty = memory-IsFaithful.failed-ne_empty;
  missing-ne_empty = memory-IsFaithful.missing-ne_empty;
  complete-ne_empty = memory-IsFaithful.complete-ne_empty;
  complete-ne-failed = memory-IsFaithful.complete-ne-failed;
  complete-ne-missing = memory-IsFaithful.complete-ne-missing;
  range-perm = memory-IsFaithful.range-perm;
}

test_cb-IsSound : IsSound test_cb
test_cb-IsSound = ((tt, tt), refl)

ok-injective : {A : Type 0} {a b : A} → ok a ≡ ok b → a ≡ b
ok-injective h = cc

one_component-HoldsSound : HoldsSound one_component
one_component-HoldsSound = record {
  reads = λ key c x e. rw (← ok-injective e) test_cb-IsSound;
  lists = λ ns c l e. rw (← ok-injective e) (test_cb-IsSound, tt);
}

abbrev one_component_world : World one_component
one_component_world = record { cluster = start; requests = [] }

reconcile-WritesConsistent_example :
    (r : Reply (Unit {0})) × ((reconcile one_component (at_key "test") one_component_world).0
      ≡ some r)
    × All WritesConsistent (reconcile one_component (at_key "test") one_component_world).1.requests
reconcile-WritesConsistent_example =
    reconcile-WritesConsistent one_component one_component-IsFaithful one_component-HoldsSound
      (at_key "test") one_component_world refl
