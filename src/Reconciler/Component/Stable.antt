-- ===== src/Reconciler/Component/Stable.antt =====
-- handleComponentBuildReceived of pkg/reconciler/componentbuild/componentbuild.go on a cluster that
-- gives the same answers about an artifact whenever it is asked.
pub mod Again
use apheleia.Base.{
  String, ◌≡◌, refl, sym, ap, ◌∙◌, ◌⊎◌, Bool, true, false, not, ◌&&◌, ◌==◌, Option, none, some,
  List, [], ◌∷◌, All, arith, eq_iff, nat_eq, Bool-cases, inl, inr, if◌then◌else◌,
}
use apheleia.Base.Dict.{Dict}
use apheleia.Base.Counts.{count-perm}
use apheleia.Api.{ArtifactState, ComponentBuild}
use apheleia.Api.Meta.{NamespacedName}
use apheleia.Platform.{
  Platform, Reply, Error, ok, err, ArtifactBuild, DependencyBuild, RebuiltArtifact,
}
use apheleia.Platform.Laws.{IsFaithful, IsReliable}
use apheleia.Exec.{World}
use apheleia.Reconciler.Artifact.{is_failed, is_built, dependency_build_name, deployed_mark, found}
use apheleia.Reconciler.Artifact.State.{Search, no_rebuilt_artifact, no_owner, asked, IsStateOf}
use apheleia.Reconciler.Component.{
  no_config_message, is_incomplete, is_pending, handle_component_build_received,
}
use apheleia.Reconciler.Component.Progress.{
  keys, pending, Source, was_read, was_created, was_unreadable, IsEntry,
}
use apheleia.Reconciler.Component.Status.{
  overall, failures, settled, Outcome, Wrote, Wrote-weaken, configured, config_key, Distinct,
}
use apheleia.Reconciler.Component.Success.{handle_component_build_received-ok}

-- The name under which the DependencyBuild is asked for.
abbrev pub owner_of : Reply RebuiltArtifact → String
owner_of (err e) = ""
owner_of (ok ra) = dependency_build_name ra.metadata.owner_references ""

-- What getDependencyBuild makes of the two replies.
abbrev pub found_by : Reply RebuiltArtifact → Reply DependencyBuild → Option DependencyBuild
found_by (err e) r = none
found_by (ok ra) r = if owner_of (ok ra) == "" then none else found r

-- The cluster answers, whenever it is asked, with the same ArtifactBuild of the artifact and the
-- same replies about its RebuiltArtifact and its DependencyBuild, and `s` is the state that
-- these make.
pub record Stays (P : Platform) (ns gav : String) (s : ArtifactState) : Type 0 where
  pub abr : ArtifactBuild
  pub reads :
      (c : P.Cluster)
      → (P.get_artifact_build (record { namespace = ns; name = P.create_abr_name gav }) c).0
        ≡ ok abr
  pub ra : Reply RebuiltArtifact
  pub rebuilds :
      (c : P.Cluster)
      → (P.get_rebuilt_artifact
          (record { namespace = abr.metadata.namespace; name = abr.metadata.name })
          c).0
        ≡ ra
  pub db : Reply DependencyBuild
  pub builds :
      (c : P.Cluster)
      → (P.get_dependency_build
          (record { namespace = abr.metadata.namespace; name = owner_of ra })
          c).0
        ≡ db
  pub makes : s ≡ record {
    artifact_build = abr.metadata.name;
    failed = is_failed P abr;
    built = is_built P abr;
    deployed = is_built P abr && deployed_mark (found_by ra db) == "true";
  }

ok-injective : {A : Type 0} (a b : A) → ok a ≡ ok b → a ≡ b
ok-injective a b h = cc

ok-ne-err : {A B : Type 0} (r : Reply A) (a : A) (e : Error) → r ≡ ok a → r ≡ err e → B
ok-ne-err r a e h h' = absurd cc

same_fields :
    (v s : ArtifactState)
    → v.artifact_build ≡ s.artifact_build
    → v.failed ≡ s.failed
    → v.built ≡ s.built
    → v.deployed ≡ s.deployed
    → v ≡ s
same_fields v s a b c d = cc

module _ (P : Platform) (ns gav : String) (s : ArtifactState) (D : Stays P ns gav s) where
  source_lem : (abr : ArtifactBuild) → Source P ns gav abr → abr ≡ D.abr
  source_lem abr (was_read c h) = ok-injective _ _ (sym h ∙ D.reads c)
  source_lem abr (was_created c cb a n h e) =
      ok-ne-err _ D.abr a.error (D.reads a.cluster) a.answers
  source_lem abr (was_unreadable c e h n z) = ok-ne-err _ D.abr e (D.reads c) h

  owner_key : Reply RebuiltArtifact → NamespacedName
  owner_key r = record { namespace = D.abr.metadata.namespace; name = owner_of r }

  search_lem : (o : Option DependencyBuild) → Search P D.abr o → o ≡ found_by D.ra D.db
  unfolding owner_key
  search_lem o (no_rebuilt_artifact c e h n) = n ∙ ap (λ r. found_by r D.db) (sym h ∙ D.rebuilds c)
  search_lem o (no_owner c ra h b n) =
      n ∙ none_found ∙ ap (λ r. found_by r D.db) (sym h ∙ D.rebuilds c)
    where
      none_found : none ≡ found_by (ok ra) D.db
      none_found = rw b refl
  search_lem o (asked c c' ra r h b h' n) =
      let same : ok ra ≡ D.ra = sym h ∙ D.rebuilds c in
      let answer : r ≡ D.db =
        sym h' ∙ ap (λ x. (P.get_dependency_build (owner_key x) c').0) same ∙ D.builds c' in
      n ∙ ap found answer ∙ one_found ∙ ap (λ x. found_by x D.db) same
    where
      one_found : found D.db ≡ found_by (ok ra) D.db
      one_found = rw b refl

  deployed_lem :
      (v : ArtifactState)
      → IsStateOf P D.abr v
      → v.deployed ≡ (is_built P D.abr && deployed_mark (found_by D.ra D.db) == "true")
  deployed_lem v st = elim (Bool-cases (is_built P D.abr)) [
    | inl built ↦
        let (o, search_, e) = st.searches (st.builds ∙ built) in
        rw built (e ∙ ap (λ x. deployed_mark x == "true") (search_lem o search_))
    | inr unbuilt ↦ rw unbuilt (not_deployed (Bool-cases v.deployed) (st.builds ∙ unbuilt))
  ]
    where
      not_deployed :
          (v.deployed ≡ true) ⊎ (v.deployed ≡ false) → v.built ≡ false → v.deployed ≡ false
      not_deployed (inl d) b = absurd (ground (arith, st.deploys d, b))
      not_deployed (inr d) b = d

  pub entry_lem : (v : ArtifactState) → IsEntry P ns (gav, v) → v ≡ s
  entry_lem v i =
      let st : IsStateOf P D.abr v = rw (← source_lem i.abr i.source) i.state in
      same_fields v _ st.names st.fails st.builds (deployed_lem v st) ∙ sym D.makes
