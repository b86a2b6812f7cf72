-- ===== src/Reconciler/Lifecycle.antt =====
-- The life of a ComponentBuild's status in pkg/reconciler/componentbuild/componentbuild.go as a step
-- relation, without the cluster and its objects.
pub mod Writes
use apheleia.Base.{
  ℕ, String, ◌≡◌, ◌≢◌, ◌⊎◌, inl, inr, refl, ap, ◌∙◌, Bool, true, false, arith, ◌==◌, if◌then◌else◌,
}
use apheleia.Api.{
  ComponentBuildStatus, component_build_state_failed, component_build_state_complete,
  component_build_state_in_progress,
}
use apheleia.Reconciler.Component.{no_config_message}

-- The message about a missing config is taken away, another is left.
abbrev pub cleared : String → String
cleared m = if m == no_config_message then "" else m

-- What one write of the reconciler may do to the status: tell that the config is missing, show
-- that some artifacts are outstanding, show an outcome, or set the flag that the outcome was
-- reported.
pub data Step (s t : ComponentBuildStatus) : Type 0 where
  config_missing : t ≡ record s { message = no_config_message } → Step s t
  progressed :
      t.state ≡ component_build_state_in_progress
      → t.outstanding ≢ 0
      → t.result_notified ≡ false
      → t.message ≡ cleared s.message
      → Step s t
  concluded :
      (t.state ≡ component_build_state_complete) ⊎ (t.state ≡ component_build_state_failed)
      → t.outstanding ≡ 0
      → t.result_notified ≡ s.result_notified
      → t.message ≡ cleared s.message
      → Step s t
  reported : t ≡ record s { result_notified = true } → Step s t
