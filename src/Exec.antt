-- ===== src/Exec.antt =====
-- How the methods of the reconciler run: Go's statements over the cluster, with a record of the
-- requests that change it. A method with results (value, error) is an action that returns a
-- `Reply`; an action with no result at all has panicked.
pub mod Triple
pub mod Keeps
pub mod Succeeds
pub mod Sends
use apheleia.Base.{String, Option, none, some, List, [], ◌∷◌, ◌++◌, ◌≡◌, refl}
use apheleia.Api.{ComponentBuild}
use apheleia.Platform.{
  Platform, Reply, Error, ok, err, ArtifactBuild, DependencyBuild, TaskRun, PipelineRun,
}

-- What the reconciler sends: each client call that writes, and each event that it records. An
-- event has the arguments of `Eventf` after the object: type, reason, format and its arguments.
pub data Request : Type 0 where
  created_artifact_build : ArtifactBuild → Request
  created_task_run : TaskRun → Request
  created_pipeline_run : PipelineRun → Request
  updated_dependency_build : DependencyBuild → Request
  updated_status : ComponentBuild → Request
  recorded_event : String → String → String → List String → Request

-- The cluster, and all requests so far, the last one at the end.
pub record World (P : Platform) : Type 0 where
  pub cluster : P.Cluster
  pub requests : List Request

abbrev pub Exec : Platform → Type 0 → Type 0
Exec P A = World P → Option A × World P

module _ {P : Platform} {A : Type 0} where
  unfoldable pub pure : A → Exec P A
  pure a w = (some a, w)

  -- A run-time panic.
  unfoldable pub panic : Exec P A
  panic w = (none, w)

  -- A call of the platform that sends no request.
  unfoldable pub read : (P.Cluster → A × P.Cluster) → Exec P A
  read f w = let (a, c) = f w.cluster in (some a, record w { cluster = c })

  -- A call of the platform that sends one.
  unfoldable pub send : Request → (P.Cluster → A × P.Cluster) → Exec P A
  send r f w =
      let (a, c) = f w.cluster in
      (some a, record { cluster = c; requests = w.requests ++ (r ∷ []) })

module _ {P : Platform} {A B : Type 0} where
  abbrev pub continue : Option A → (A → Exec P B) → Exec P B
  continue none f w = (none, w)
  continue (some a) f w = f a w

  infixl 10 ◌>>=◌ ◌>>◌
  unfoldable pub ◌>>=◌ : Exec P A → (A → Exec P B) → Exec P B
  unfolding pure panic read send
  ◌>>=◌ m f w = let (o, w') = m w in continue o f w'

  abbrev pub ◌>>◌ : Exec P A → Exec P B → Exec P B
  m >> k = m >>= λ _. k

-- `if err != nil { … } else { … }`
unfoldable pub on_reply {ℓ} : {A : Type 0} {B : Type ℓ} → Reply A → (Error → B) → (A → B) → B
on_reply (err e) f g = f e
on_reply (ok a) f g = g a

-- `if p == nil { … } else { … }`
unfoldable pub on_option {ℓ} : {A : Type 0} {B : Type ℓ} → Option A → B → (A → B) → B
on_option none b f = b
on_option (some a) b f = f a

-- `if err != nil { return err }` after a call, and what follows it.
unfoldable pub unless_err :
    {P : Platform} {A B : Type 0} → Exec P (Reply A) → (A → Exec P (Reply B)) → Exec P (Reply B)
unfolding ◌>>=◌ on_reply
unless_err m f = do r ← m; on_reply r (λ e. pure (err e)) f

-- Eventf
unfoldable pub eventf : {P : Platform} → String → String → String → List String → Exec P (Unit {0})
unfolding send
eventf kind reason format arguments =
    send (recorded_event kind reason format arguments) (λ c. (tt, c))
