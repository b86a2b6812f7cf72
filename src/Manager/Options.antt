-- ===== src/Manager/Options.antt =====
-- pkg/controller/controller.go: with what NewManager makes its manager, and why it makes none.
use mathlib.Core.Path.{subst}
use apheleia.Base.{ℕ, ◌≡◌, refl, ap, Bool, true, false, Option, none, some, [], ◌∷◌}
use apheleia.Platform.{Reply, Error, ok, err}
use apheleia.Exec.{on_reply, on_option}
use apheleia.Manager.Steps.{Step, lift, bind_outcome}
use apheleia.Manager.Schemes.{BuildsInOrder, with_types, group_lem}
use apheleia.Manager.{
  Library, Options, exists, component_build_kind, artifact_build_kind, pipeline_run_kind,
  task_run_kind, watch_artifact_build, watch_pipeline_run, watch_task_run, registered, crd_exists,
  setup_new_reconciler_with_manager, new_reconciler, manager_with, new_manager,
}
use apheleia.Reconciler.Watches.{artifact_build_requests, pipeline_run_requests, task_run_requests}

-- PollImmediate returns without an error only when the condition has been met.
pub record PollsUntil (L : Library) : Type 0 where
  pub poll_immediate-met :
      (interval timeout : ℕ) (condition : Step L.State Bool) (s s' : L.State)
      → L.poll_immediate interval timeout condition s ≡ (ok tt, s')
      → (x : L.State) × ((condition x).0 ≡ ok true)

module _ (L : Library) where
  -- The scheme has the types of Kubernetes, of the JVM build service and of Tekton, and then both
  -- types of the group.
  pub record IsRegistered (scheme : L.Scheme) : Type 0 where
    pub client_go : L.Scheme
    pub jvmbs : L.Scheme
    pub pipeline : L.Scheme
    pub adds_client_go : L.add_client_go L.new_scheme ≡ ok client_go
    pub adds_jvmbs : L.add_jvmbs client_go ≡ ok jvmbs
    pub adds_pipeline : L.add_pipeline jvmbs ≡ ok pipeline
    pub adds_own : scheme ≡ with_types L pipeline

  -- The given options, with this scheme and a cache of four kinds, of which the TaskRuns are
  -- selected by the empty selector.
  abbrev pub with_scheme : Options L → L.Scheme → Options L
  with_scheme options scheme = record options {
    scheme = some scheme;
    new_cache = some (
        L.builder_with_options (
          (component_build_kind, none)
          ∷ (artifact_build_kind, none)
          ∷ (pipeline_run_kind, none)
          ∷ (task_run_kind, some L.new_selector)
          ∷ []));
  }

  -- The set-up of a controller of ComponentBuilds that watches the other three kinds, and maps
  -- each object to its namespace and name.
  abbrev pub set_up : L.Manager → Step L.State (Unit {0})
  set_up mgr =
      L.complete_controller mgr component_build_kind
        (watch_artifact_build
            (λ o. record { namespace = o.metadata.namespace; name = o.metadata.name } ∷ [])
          ∷ watch_pipeline_run
              (λ o. record { namespace = o.metadata.namespace; name = o.metadata.name } ∷ [])
          ∷ watch_task_run
              (λ o. record { namespace = o.metadata.namespace; name = o.metadata.name } ∷ [])
          ∷ [])
        (record {
          client = L.get_client mgr;
          scheme = L.get_scheme mgr;
          event_recorder = L.get_event_recorder_for mgr "ComponentBuild";
        })

  -- The manager was made, after the definition of TaskRuns was found, with all types, and the
  -- controller was set up with it.
  pub record IsMade (cfg : L.Config) (options : Options L) (mgr : L.Manager) (s' : L.State)
      : Type 0 where
    pub client : L.CrdClient
    pub asked : L.State
    pub polled : L.State
    pub made : L.State
    pub scheme : L.Scheme
    pub connects : L.new_crd_client_or_die cfg ≡ some client
    pub finds : (L.get_crd client "taskruns.tekton.dev" asked).0 ≡ ok tt
    pub registers : IsRegistered scheme
    pub makes : L.new_ctrl_manager cfg (with_scheme options scheme) polled ≡ (ok mgr, made)
    pub sets_up : set_up mgr made ≡ (ok tt, s')

  -- The call that has failed, with what the calls before it have given.
  pub data IsRefused (cfg : L.Config) (options : Options L) (e : Error) : Type 0 where
    not_found :
        (client : L.CrdClient) (x : L.State)
        → L.new_crd_client_or_die cfg ≡ some client
        → (L.poll_immediate 5 300 (crd_exists L client) x).0 ≡ err e
        → IsRefused cfg options e
    no_client_go : L.add_client_go L.new_scheme ≡ err e → IsRefused cfg options e
    no_jvmbs :
        (client_go : L.Scheme)
        → L.add_client_go L.new_scheme ≡ ok client_go
        → L.add_jvmbs client_go ≡ err e
        → IsRefused cfg options e
    no_pipeline :
        (client_go jvmbs : L.Scheme)
        → L.add_client_go L.new_scheme ≡ ok client_go
        → L.add_jvmbs client_go ≡ ok jvmbs
        → L.add_pipeline jvmbs ≡ err e
        → IsRefused cfg options e
    no_requirement :
        L.new_requirement "apheleia.io/deploy-task" exists [] ≡ err e → IsRefused cfg options e
    not_made :
        (scheme : L.Scheme) (x : L.State)
        → IsRegistered scheme
        → (L.new_ctrl_manager cfg (with_scheme options scheme) x).0 ≡ err e
        → IsRefused cfg options e
    not_set_up :
        (scheme : L.Scheme) (mgr : L.Manager) (x made : L.State)
        → IsRegistered scheme
        → L.new_ctrl_manager cfg (with_scheme options scheme) x ≡ (ok mgr, made)
        → (set_up mgr made).0 ≡ err e
        → IsRefused cfg options e

  -- A manager, an error, or no result where the client cannot be made.
  abbrev pub Outcome : L.Config → Options L → Option (Reply L.Manager) × L.State → Type 0
  Outcome cfg options (none, s') = L.new_crd_client_or_die cfg ≡ none
  Outcome cfg options (some (err e), s') = IsRefused cfg options e
  Outcome cfg options (some (ok mgr), s') = IsMade cfg options mgr s'

  module _ (B : BuildsInOrder L) (W : PollsUntil L) (cfg : L.Config) (options : Options L) where
    abbrev Registered : Reply L.Scheme × L.State → Type 0
    Registered (err e, s') = IsRefused cfg options e
    Registered (ok scheme, s') = IsRegistered scheme

    registered-Registered : (s : L.State) → Registered (registered L s)
    unfolding registered
    registered-Registered s =
        bind_outcome Registered (lift (L.add_client_go L.new_scheme)) _ s
          (λ e s' h. no_client_go (ap (λ p. p.0) h))
          λ a s1 h1.
            bind_outcome Registered (lift (L.add_jvmbs a)) _ s1
              (λ e s' h. no_jvmbs a (ap (λ p. p.0) h1) (ap (λ p. p.0) h))
              λ b s2 h2.
                bind_outcome Registered (lift (L.add_pipeline b)) _ s2
                  (λ e s' h.
                    no_pipeline a b (ap (λ p. p.0) h1) (ap (λ p. p.0) h2) (ap (λ p. p.0) h))
                  λ c s3 h3. rw (group_lem L B c) (record {
                    client_go = a;
                    jvmbs = b;
                    pipeline = c;
                    adds_client_go = ap (λ p. p.0) h1;
                    adds_jvmbs = ap (λ p. p.0) h2;
                    adds_pipeline = ap (λ p. p.0) h3;
                    adds_own = refl;
                  })

    found_lem :
        (client : L.CrdClient) (x : L.State)
        → (crd_exists L client x).0 ≡ ok true
        → (L.get_crd client "taskruns.tekton.dev" x).0 ≡ ok tt
    unfolding crd_exists on_reply
    found_lem client x h = by_reply (L.get_crd client "taskruns.tekton.dev" x).0 h
      where
        by_reply :
            (r : Reply (Unit {0}))
            → on_reply {B = Reply Bool} r (λ e. ok false) (λ _. ok true) ≡ ok true
            → r ≡ ok tt
        by_reply (err e) h = absurd cc
        by_reply (ok tt) h = refl

    module _ (client : L.CrdClient) (connects : L.new_crd_client_or_die cfg ≡ some client) where
      abbrev With : Reply L.Manager × L.State → Type 0
      With (r, s') = Outcome cfg options (some r, s')

      manager_with-With : (s : L.State) → With (manager_with L client cfg options s)
      unfolding manager_with setup_new_reconciler_with_manager new_reconciler
          artifact_build_requests pipeline_run_requests task_run_requests
      manager_with-With s =
          bind_outcome With (L.poll_immediate 5 300 (crd_exists L client)) _ s
            (λ e s' h. not_found client s connects (ap (λ p. p.0) h))
            λ _ s1 h1.
              bind_outcome With (registered L) _ s1
                (λ e s' h. subst Registered h (registered-Registered s1))
                λ scheme s2 h2.
                  let registers : IsRegistered scheme =
                    subst Registered h2 (registered-Registered s1) in
                  bind_outcome With (lift (L.new_requirement _ _ _)) _ s2
                    (λ e s' h. no_requirement (ap (λ p. p.0) h))
                    λ requirement s3 h3.
                      bind_outcome With (L.new_ctrl_manager cfg _) _ s3
                        (λ e s' h. not_made scheme s3 registers (ap (λ p. p.0) h))
                        λ mgr s4 h4.
                          bind_outcome With (setup_new_reconciler_with_manager L mgr) _ s4
                            (λ e s' h. not_set_up scheme mgr s3 s4 registers h4 (ap (λ p. p.0) h))
                            λ _ s5 h5.
                              let (x, met) =
                                W.poll_immediate-met 5 300 (crd_exists L client) s s1 h1 in
                              record {
                                client = client;
                                asked = x;
                                polled = s3;
                                made = s4;
                                scheme = scheme;
                                connects = connects;
                                finds = found_lem client x met;
                                registers = registers;
                                makes = h4;
                                sets_up = h5;
                              }

  -- With the builder of schemes and the poll as documented: NewManager panics only where the
  -- client for definitions cannot be made. Else it returns a manager after the definition of
  -- TaskRuns was found: one that was made with the given options, with a scheme that has the types
  -- of Kubernetes, of the JVM build service, of Tekton and both types of the group, and with a cache
  -- of four kinds that selects TaskRuns by the empty selector; and a controller of ComponentBuilds
  -- was set up with it that watches ArtifactBuilds, PipelineRuns and TaskRuns and maps each to its
  -- namespace and name. Or it returns the error of the poll, of a registration that is not of the
  -- group, of the requirement, of the making of the manager or of the set-up.
  pub new_manager-Outcome :
      (B : BuildsInOrder L) (W : PollsUntil L) (cfg : L.Config) (options : Options L) (s : L.State)
      → Outcome cfg options (new_manager L cfg options s)
  unfolding new_manager on_option
  new_manager-Outcome B W cfg options s = by_client (L.new_crd_client_or_die cfg) refl
    where
      by_client :
          (o : Option L.CrdClient)
          → L.new_crd_client_or_die cfg ≡ o
          → Outcome cfg options (
              on_option o
                (none, s)
                λ client. let (r, s') = manager_with L client cfg options s in (some r, s'))
      by_client none h = h
      by_client (some client) h = manager_with-With B W cfg options client h s
