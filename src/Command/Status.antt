-- ===== src/Command/Status.antt =====
-- cmd/controller/main.go: what the exit status means.
use apheleia.Base.{ℕ, ◌≡◌, refl, ap, Option, none, some}
use apheleia.Platform.{Reply, Error, ok, err}
use apheleia.Exec.{on_option}
use apheleia.Manager.{Library, Options, new_manager}
use apheleia.Manager.Steps.{bind_outcome, ◌>>◌}
use apheleia.Manager.Schemes.{BuildsInOrder}
use apheleia.Manager.Options.{PollsUntil, Outcome, IsMade, IsRefused, new_manager-Outcome}
use apheleia.Command.{Flags, exit_status, options_of, run_made, run_manager, main}

module _ (L : Library) (flags : Flags) (cfg : L.Config) where
  -- The options of the manager.
  abbrev pub wanted : Options L
  wanted = record {
    metrics_bind_address = flags.metrics_addr;
    port = 9443;
    health_probe_bind_address = flags.probe_addr;
    leader_election = flags.enable_leader_election;
    leader_election_id = "5483be8f.redhat.com";
    scheme = none;
    new_cache = none;
  }

  -- A manager was made with these options, both checks were added to it, and then it ran until it
  -- ended without an error.
  pub record IsRun (s' : L.State) : Type 0 where
    pub mgr : L.Manager
    pub set_up : L.State
    pub healthy : L.State
    pub ready : L.State
    pub made : IsMade L cfg wanted mgr set_up
    pub adds_healthz : L.add_healthz_check mgr "healthz" set_up ≡ (ok tt, healthy)
    pub adds_readyz : L.add_readyz_check mgr "readyz" healthy ≡ (ok tt, ready)
    pub starts : L.start_manager mgr ready ≡ (ok tt, s')

  -- What has failed, with this error.
  pub data HasFailed (e : Error) : Type 0 where
    no_manager : IsRefused L cfg wanted e → HasFailed e
    no_healthz :
        (mgr : L.Manager) (s : L.State)
        → IsMade L cfg wanted mgr s
        → (L.add_healthz_check mgr "healthz" s).0 ≡ err e
        → HasFailed e
    no_readyz :
        (mgr : L.Manager) (s s1 : L.State)
        → IsMade L cfg wanted mgr s
        → L.add_healthz_check mgr "healthz" s ≡ (ok tt, s1)
        → (L.add_readyz_check mgr "readyz" s1).0 ≡ err e
        → HasFailed e
    has_ended :
        (mgr : L.Manager) (s s1 s2 : L.State)
        → IsMade L cfg wanted mgr s
        → L.add_healthz_check mgr "healthz" s ≡ (ok tt, s1)
        → L.add_readyz_check mgr "readyz" s1 ≡ (ok tt, s2)
        → (L.start_manager mgr s2).0 ≡ err e
        → HasFailed e

  -- The exit status with its reason.
  pub data HasEnded : ℕ × L.State → Type 0 where
    well : (s' : L.State) → IsRun s' → HasEnded (0, s')
    badly : (s' : L.State) (e : Error) → HasFailed e → HasEnded (1, s')
    panicked : (s' : L.State) → L.new_crd_client_or_die cfg ≡ none → HasEnded (2, s')

  abbrev Ended : Reply (Unit {0}) × L.State → Type 0
  Ended (r, s') = HasEnded (exit_status (some r, s'))

  run_made-Ended :
      (mgr : L.Manager) (s : L.State) → IsMade L cfg wanted mgr s → Ended (run_made L (ok mgr) s)
  unfolding run_made
  run_made-Ended mgr s made =
      bind_outcome Ended (L.add_healthz_check mgr "healthz")
        (λ _. L.add_readyz_check mgr "readyz" >> L.start_manager mgr) s
        (λ e s' h. badly s' e (no_healthz mgr s made (ap (λ p. p.0) h)))
        λ _ s1 h1.
          bind_outcome Ended (L.add_readyz_check mgr "readyz") (λ _. L.start_manager mgr) s1
            (λ e s' h. badly s' e (no_readyz mgr s s1 made h1 (ap (λ p. p.0) h)))
            λ _ s2 h2. started s1 s2 h1 h2 (L.start_manager mgr s2) refl
    where
      started :
          (s1 s2 : L.State)
          → L.add_healthz_check mgr "healthz" s ≡ (ok tt, s1)
          → L.add_readyz_check mgr "readyz" s1 ≡ (ok tt, s2)
          → (p : Reply (Unit {0}) × L.State) → L.start_manager mgr s2 ≡ p
          → Ended p
      started s1 s2 h1 h2 (err e, s') h =
          badly s' e (has_ended mgr s s1 s2 made h1 h2 (ap (λ p. p.0) h))
      started s1 s2 h1 h2 (ok tt, s') h = well s' (record {
        mgr = mgr;
        set_up = s;
        healthy = s1;
        ready = s2;
        made = made;
        adds_healthz = h1;
        adds_readyz = h2;
        starts = h;
      })

  -- With the builder of schemes and the poll as documented: the command ends with the exit status 0
  -- after a manager was made with the addresses and the choice of a leader that the flags give, the
  -- port 9443 and the fixed name for the election, both checks were added to it in this order, and it
  -- ran and ended without an error; with 1 after an error of the making of that manager, of one of
  -- the checks or of the run; and with 2 only where the client for definitions cannot be made.
  pub main-HasEnded :
      (B : BuildsInOrder L) (W : PollsUntil L) (s : L.State) → HasEnded (main L flags cfg s)
  unfolding main run_manager run_made options_of on_option
  main-HasEnded B W s =
      by_result (new_manager L cfg wanted s) (new_manager-Outcome L B W cfg wanted s)
    where
      by_result :
          (x : Option (Reply L.Manager) × L.State)
          → Outcome L cfg wanted x
          → HasEnded (
              exit_status
                (on_option x.0 (none, x.1) λ r. let (r', s'') = run_made L r x.1 in (some r', s'')))
      by_result (none, s') h = panicked s' h
      by_result (some (err e), s') h = badly s' e (no_manager h)
      by_result (some (ok mgr), s') h = run_made-Ended mgr s' h
