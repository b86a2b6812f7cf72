-- ===== src/Tests/Lifecycles.antt =====
-- The theorems on the life of a ComponentBuild's status at concrete data: a cluster in memory that
-- has one ComponentBuild, whose artifact was outstanding when it was last looked at.
use apheleia.Base.{◌≡◌, refl, some, [], ◌∷◌, All}
use apheleia.Api.{ComponentBuild}
use apheleia.Platform.{Platform, Reply, ok}
use apheleia.Exec.{World}
use apheleia.Reconciler.Dispatch.{reconcile}
use apheleia.Reconciler.Lifecycle.Writes.{IsLegal, reconcile-AreLegal}
use apheleia.Tests.Deployed.{settled_memory}
use apheleia.Tests.Scenario.{start, at_key, test_cb}

-- The ComponentBuild of the scenario while its artifact is built.
abbrev building_cb : ComponentBuild
building_cb = record test_cb {
  status = record test_cb.status { state = "ComponentBuildBuildInProgress"; outstanding = 1 };
}

abbrev building_memory : Platform
building_memory = record settled_memory {
  get_component_build = λ k c. (ok building_cb, c);
  list_component_builds = λ ns c. (ok (record { items = building_cb ∷ [] }), c);
}

abbrev building_world : World building_memory
building_world = record { cluster = start; requests = [] }

reconcile-AreLegal_example :
    (r : Reply (Unit {0})) × ((reconcile building_memory (at_key "test") building_world).0 ≡ some r)
    × All
        (IsLegal building_memory)
        (reconcile building_memory (at_key "test") building_world).1.requests
reconcile-AreLegal_example = reconcile-AreLegal building_memory (at_key "test") building_world refl
