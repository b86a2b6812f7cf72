-- ===== src/Client/Schemes/Agreement.antt =====
-- pkg/client/clientset/versioned/scheme/register.go and fake/register.go, pkg/apis/apis.go: all of
-- them register the same types.
use apheleia.Base.{◌≡◌, refl, some, [], ◌∷◌}
use apheleia.Platform.{ok}
use apheleia.Exec.{on_reply}
use apheleia.Manager.{Library, add_to_scheme}
use apheleia.Manager.Schemes.{BuildsInOrder, with_types, one_step, group_lem}
use apheleia.Client.Schemes.{
  core_v1, local_scheme_builder, clientset_add_to_scheme, clientset_scheme,
  fake_local_scheme_builder, fake_add_to_scheme, fake_scheme, add_to_schemes, apis_add_to_scheme,
}

module _ (L : Library) (B : BuildsInOrder L) where
  alone : (s : L.Scheme) → L.build_scheme (add_to_scheme L ∷ []) s ≡ ok (with_types L s)
  alone s = one_step L B (add_to_scheme L) s (with_types L s) (group_lem L B s)

  -- With the builder of schemes as documented: AddToScheme of the API group, of the list of all
  -- groups, of the clientset and of the clientset for tests each return the scheme with the two
  -- types of the group and the group's version, without an error. The schemes of the two clientsets
  -- are made without a panic, and have the version v1 besides.
  pub schemes-agree :
      (s : L.Scheme)
      → (add_to_scheme L s ≡ ok (with_types L s))
        × (apis_add_to_scheme L s ≡ ok (with_types L s))
        × (clientset_add_to_scheme L s ≡ ok (with_types L s))
        × (fake_add_to_scheme L s ≡ ok (with_types L s))
        × (clientset_scheme L ≡ some (with_types L (L.add_to_group_version L.new_scheme core_v1)))
        × (fake_scheme L ≡ some (with_types L (L.add_to_group_version L.new_scheme core_v1)))
  unfolding apis_add_to_scheme add_to_schemes clientset_add_to_scheme local_scheme_builder
      fake_add_to_scheme fake_local_scheme_builder clientset_scheme fake_scheme on_reply
  schemes-agree s =
      let start = L.add_to_group_version L.new_scheme core_v1 in
      (group_lem L B s, alone s, alone s, alone s, rw (alone start) refl, rw (alone start) refl)
