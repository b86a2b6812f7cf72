-- ===== src/Manager/Schemes.antt =====
-- pkg/apis/apheleia/v1alpha1/register.go: what AddToScheme adds.
use apheleia.Base.{◌≡◌, refl, List, [], ◌∷◌}
use apheleia.Platform.{Reply, ok, err}
use apheleia.Exec.{on_reply}
use apheleia.Manager.{Library, GroupVersion, add_known_types, add_to_scheme}

-- (*SchemeBuilder).AddToScheme calls the functions in their order, up to the first error.
pub record BuildsInOrder (L : Library) : Type 0 where
  pub build_scheme-nil : (s : L.Scheme) → L.build_scheme [] s ≡ ok s
  pub build_scheme-cons :
      (f : L.Scheme → Reply L.Scheme) (fs : List (L.Scheme → Reply L.Scheme)) (s : L.Scheme)
      → L.build_scheme (f ∷ fs) s ≡ on_reply (f s) (λ e. err e) (L.build_scheme fs)

abbrev pub group_v1alpha1 : GroupVersion
group_v1alpha1 = record { group = "apheleia.io"; version = "v1alpha1" }

-- The scheme with the types of the group.
abbrev pub with_types : (L : Library) → L.Scheme → L.Scheme
with_types L s =
    L.add_to_group_version
      (L.add_types s group_v1alpha1 ("ComponentBuild" ∷ "ComponentBuildList" ∷ [])) group_v1alpha1

module _ (L : Library) (B : BuildsInOrder L) where
  pub one_step :
      (f : L.Scheme → Reply L.Scheme) (s t : L.Scheme)
      → f s ≡ ok t
      → L.build_scheme (f ∷ []) s ≡ ok t
  unfolding on_reply
  one_step f s t h = rw (B.build_scheme-cons f [] s, h) (B.build_scheme-nil t)

  pub group_lem : (s : L.Scheme) → add_to_scheme L s ≡ ok (with_types L s)
  unfolding add_to_scheme add_known_types
  group_lem s = one_step (add_known_types L) s (with_types L s) refl
