-- ===== src/Reconciler/Artifact/State.antt =====
-- pkg/reconciler/componentbuild/componentbuild.go: what artifactState returns.
use apheleia.Base.{
  String, ◌≡◌, refl, sym, ◌∙◌, Bool, true, false, Option, none, some, List, ◌==◌, eq_iff,
  Bool-cases, inl, inr,
}
use apheleia.Api.{ArtifactState}
use apheleia.Platform.{
  Platform, Reply, Error, ok, err, ArtifactBuild, DependencyBuild, RebuiltArtifact,
}
use apheleia.Exec.{Request}
use apheleia.Exec.Triple.{
  Triple, Triple-pure, Triple-bind, Triple-if, Triple-read_bind, Triple-reply,
}
use apheleia.Reconciler.Artifact.{
  dependency_build_name, found, deployed_mark, get_dependency_build, artifact_state, is_failed,
  is_built,
}

module _ (P : Platform) where
  -- How getDependencyBuild came by its result: there was no RebuiltArtifact, or it had no owner of
  -- the kind, or the owner was asked for, with this reply.
  pub data Search (abr : ArtifactBuild) (o : Option DependencyBuild) : Type 0 where
    no_rebuilt_artifact :
        (c : P.Cluster) (e : Error)
        → (P.get_rebuilt_artifact
            (record { namespace = abr.metadata.namespace; name = abr.metadata.name })
            c).0
          ≡ err e
        → o ≡ none
        → Search abr o
    no_owner :
        (c : P.Cluster) (ra : RebuiltArtifact)
        → (P.get_rebuilt_artifact
            (record { namespace = abr.metadata.namespace; name = abr.metadata.name })
            c).0
          ≡ ok ra
        → (dependency_build_name ra.metadata.owner_references "" == "") ≡ true
        → o ≡ none
        → Search abr o
    asked :
        (c c' : P.Cluster) (ra : RebuiltArtifact) (r : Reply DependencyBuild)
        → (P.get_rebuilt_artifact
            (record { namespace = abr.metadata.namespace; name = abr.metadata.name })
            c).0
          ≡ ok ra
        → (dependency_build_name ra.metadata.owner_references "" == "") ≡ false
        → (P.get_dependency_build
            (record {
              namespace = abr.metadata.namespace;
              name = dependency_build_name ra.metadata.owner_references "";
            })
            c').0
          ≡ r
        → o ≡ found r
        → Search abr o

  -- The cluster has answered with a DependencyBuild of the namespace that has the mark.
  pub record WasMarked (ns : String) : Type 0 where
    pub name : String
    pub cluster : P.Cluster
    pub db : DependencyBuild
    pub answers :
        (P.get_dependency_build (record { namespace = ns; name = name }) cluster).0 ≡ ok db
    pub marks : deployed_mark (some db) ≡ "true"

  -- What an artifact's state says of the ArtifactBuild that it was made from.
  pub record IsStateOf (abr : ArtifactBuild) (s : ArtifactState) : Type 0 where
    pub names : s.artifact_build ≡ abr.metadata.name
    pub fails : s.failed ≡ is_failed P abr
    pub builds : s.built ≡ is_built P abr
    pub deploys : s.deployed ≡ true → s.built ≡ true
    pub searches :
        s.built ≡ true
        → (o : Option DependencyBuild) × Search abr o × (s.deployed ≡ (deployed_mark o == "true"))

  found-WasMarked :
      (ns name : String) (c : P.Cluster) (r : Reply DependencyBuild)
      → (P.get_dependency_build (record { namespace = ns; name = name }) c).0 ≡ r
      → (deployed_mark (found r) == "true") ≡ true
      → WasMarked ns
  found-WasMarked ns name c (err e) h m = absurd cc
  found-WasMarked ns name c (ok db) h m = record {
    name = name;
    cluster = c;
    db = db;
    answers = h;
    marks = (eq_iff (deployed_mark (some db)) "true").0 m;
  }

  unmarked_none :
      {A : Type 0} (o : Option DependencyBuild) → o ≡ none → (deployed_mark o == "true") ≡ true → A
  unmarked_none none h m = absurd cc
  unmarked_none (some db) h m = absurd cc

  Search-WasMarked :
      (abr : ArtifactBuild) (o : Option DependencyBuild)
      → Search abr o
      → (deployed_mark o == "true") ≡ true
      → WasMarked abr.metadata.namespace
  Search-WasMarked abr o (no_rebuilt_artifact c e h n) m = unmarked_none o n m
  Search-WasMarked abr o (no_owner c ra h b n) m = unmarked_none o n m
  Search-WasMarked abr o (asked c c' ra r h b h' n) m = found-WasMarked _ _ c' r h' (rw (← n) m)

  pub deployed-WasMarked :
      (abr : ArtifactBuild) (s : ArtifactState)
      → IsStateOf abr s
      → s.deployed ≡ true
      → WasMarked abr.metadata.namespace
  deployed-WasMarked abr s h d =
      let (o, search_, e) = h.searches (h.deploys d) in Search-WasMarked abr o search_ (sym e ∙ d)

  module _ (I : List Request → Type 0) (abr : ArtifactBuild) where
    get_dependency_build_returns :
        Triple I (get_dependency_build P abr) (λ o rs. Search abr o × I rs)
    unfolding get_dependency_build
    get_dependency_build_returns = Triple-read_bind _ _ _ λ c.
        Triple-reply _ _ _ (λ e h. Triple-pure none (λ rs p. (no_rebuilt_artifact c e h refl, p)))
          (λ ra h. elim (Bool-cases (dependency_build_name ra.metadata.owner_references "" == "")) [
            | inl e ↦ rw e (Triple-pure none (λ rs p. (no_owner c ra h e refl, p)))
            | inr e ↦ rw e (
                Triple-read_bind _ _ _
                  λ c'. Triple-pure _ (λ rs p. (asked c c' ra _ h e refl refl, p)))
          ])

    -- What is known once the state's mark was looked for, or not.
    abbrev Looked : Bool → List Request → Type 0
    Looked d rs =
        (d ≡ true → is_built P abr ≡ true)
        × (is_built P abr ≡ true
            → (o : Option DependencyBuild) × Search abr o × (d ≡ (deployed_mark o == "true")))
        × I rs

    pub artifact_state_returns : Triple I (artifact_state P abr) (λ s rs. IsStateOf abr s × I rs)
    unfolding artifact_state
    artifact_state_returns =
        Triple-bind Looked _ _
          (Triple-if _ _ _
            (λ b.
              Triple-bind (λ o rs. Search abr o × I rs) _ _ get_dependency_build_returns
                (λ db. Triple-pure _ (λ rs p. ((λ e. b), (λ _. (db, p.0, refl)), p.1))))
            (λ b. Triple-pure false (λ rs p. ((λ e. absurd cc), (λ e. absurd cc), p))))
          (λ d. Triple-pure _ (λ rs p. (
            record { names = refl; fails = refl; builds = refl; deploys = p.0; searches = p.1 },
            p.2,
          )))
