-- ===== src/Reconciler/Dispatch/Reads.antt =====
-- pkg/reconciler/componentbuild/componentbuild.go: the reads at the beginning of Reconcile, as a
-- function of the cluster, and what Reconcile does after them.
use apheleia.Base.{◌≡◌, refl, Option, none, some, Bool-cases, inl, inr, if◌then◌else◌}
use apheleia.Api.Meta.{NamespacedName}
use apheleia.Platform.{Platform, Reply, ok, err}
use apheleia.Exec.{World, Exec, pure, read, on_reply, on_option, unless_err, ◌>>=◌}
use apheleia.Reconciler.Dispatch.{Found, fetch, fetch_all, dispatch, reconcile}

module _ (P : Platform) where
  -- What Reconcile makes of a reply: an error that says that there is no such object is none.
  abbrev pub fetched : {A : Type 0} → Reply A → Reply (Option A)
  fetched (ok a) = ok (some a)
  fetched (err e) = if P.is_not_found e then ok none else err e

  -- A reply and the cluster after it, and then the next read.
  abbrev after :
      {A B : Type 0}
      → Reply (Option A) × P.Cluster
      → (Option A → P.Cluster → Reply B × P.Cluster)
      → Reply B × P.Cluster
  after (err e, c) f = (err e, c)
  after (ok o, c) f = f o c

  abbrev fetched_from : {A : Type 0} → Reply A × P.Cluster → Reply (Option A) × P.Cluster
  fetched_from (r, c) = (fetched r, c)

  -- The objects of the request's name, or the first error that is not of an absent object. The
  -- ArtifactBuild is read first, then the ComponentBuild, the TaskRun and the PipelineRun; none is
  -- read after an error.
  abbrev pub reads : NamespacedName → P.Cluster → Reply Found × P.Cluster
  reads key c = after (fetched_from (P.get_artifact_build key c)) λ abr c.
      after (fetched_from (P.get_component_build key c)) λ cb c.
        after (fetched_from (P.get_task_run key c)) λ tr c.
          after (fetched_from (P.get_pipeline_run key c))
            λ pr c. (ok (record { abr = abr; cb = cb; tr = tr; pr = pr }), c)

  -- An action that returns this reply with this cluster, and sends nothing.
  abbrev pub returning : {A : Type 0} → Reply A × P.Cluster → World P → Option (Reply A) × World P
  returning (r, c) w = (some r, record w { cluster = c })

  fetch_lem :
      {A : Type 0} (f : P.Cluster → Reply A × P.Cluster) (w : World P)
      → fetch P f w ≡ returning (fetched_from (f w.cluster)) w
  unfolding fetch ◌>>=◌ read pure on_reply
  fetch_lem {A} f w = replied (f w.cluster).0
    where
      replied :
          (r : Reply A)
          → on_reply {B = Exec P (Reply (Option A))} r
              (λ e. if P.is_not_found e then pure (ok none) else pure (err e))
              (λ a. pure (ok (some a)))
              (record w { cluster = (f w.cluster).1 })
            ≡ returning (fetched r, (f w.cluster).1) w
      replied (ok a) = refl
      replied (err e) = elim (Bool-cases (P.is_not_found e)) [
        | inl absent ↦ rw absent refl
        | inr other ↦ rw other refl
      ]

  unless_lem :
      {A B : Type 0} (m : Exec P (Reply (Option A))) (g : Option A → Exec P (Reply B))
      (g' : Option A → P.Cluster → Reply B × P.Cluster) (w : World P)
      (x : Reply (Option A) × P.Cluster)
      → m w ≡ returning x w
      → ((o : Option A) (c : P.Cluster) → g o (record w { cluster = c }) ≡ returning (g' o c) w)
      → unless_err m g w ≡ returning (after x g') w
  unfolding unless_err ◌>>=◌ pure on_reply
  unless_lem m g g' w (err e, c) h k = rw h refl
  unless_lem m g g' w (ok o, c) h k = rw h (k o c)

  fetch_all-reads :
      (key : NamespacedName) (w : World P) → fetch_all P key w ≡ returning (reads key w.cluster) w
  unfolding fetch_all pure
  fetch_all-reads key w = unless_lem _ _ _ w _ (fetch_lem (P.get_artifact_build key) w) λ abr c.
      unless_lem _ _ _ (record w { cluster = c }) _ (fetch_lem (P.get_component_build key) _)
        λ cb c.
          unless_lem _ _ _ (record w { cluster = c }) _ (fetch_lem (P.get_task_run key) _)
            λ tr c.
              unless_lem _ _ _ (record w { cluster = c }) _ (fetch_lem (P.get_pipeline_run key) _)
                λ pr c. refl

  -- Reconcile returns the first error of its reads that is not of an absent object, and then sends
  -- nothing; without one it does what it has to do for the objects that it has read. It has done
  -- nothing else before, and where it has read no object it ends at once.
  pub reconcile-reads :
      (key : NamespacedName) (w : World P)
      → (reconcile P key w ≡ (elim (reads key w.cluster).0 [
        | err e ↦ (some (err e), record w { cluster = (reads key w.cluster).1 })
        | ok f ↦ dispatch P f (record w { cluster = (reads key w.cluster).1 })
      ]))
        × (dispatch P (record { abr = none; cb = none; tr = none; pr = none }) w
            ≡ (some (ok tt), w))
  unfolding reconcile unless_err ◌>>=◌ pure on_reply dispatch on_option
  reconcile-reads key w = (rw (fetch_all-reads key w) (by_reply (reads key w.cluster)), refl)
    where
      by_reply :
          (x : Reply Found × P.Cluster)
          → unless_err (returning x) (dispatch P) w ≡ (elim x.0 [
            | err e ↦ (some (err e), record w { cluster = x.1 })
            | ok f ↦ dispatch P f (record w { cluster = x.1 })
          ])
      by_reply (err e, c) = refl
      by_reply (ok f, c) = refl
