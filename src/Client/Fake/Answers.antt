-- ===== src/Client/Fake/Answers.antt =====
-- pkg/client/clientset/versioned/typed/apheleia/v1alpha1/fake/fake_componentbuild.go: what the
-- client for tests answers, and where it looks.
use apheleia.Base.{
  String, ◌≡◌, refl, Option, none, some, List, [], ◌∷◌, ◌++◌, Bool-cases, inl, inr, if◌then◌else◌,
}
use mathlib.Core.List.{append-nil, append_assoc}
use apheleia.Api.{ComponentBuild}
use apheleia.Platform.{Error}
use apheleia.Client.Typed.{
  ComponentBuilds, ListOptions, RestRequest, Verb, http_get, http_post, http_put, http_delete,
  http_patch,
}
use apheleia.Client.Typed
use apheleia.Client.Typed.Address.{
  Call, get_call, list_call, watch_call, create_call, update_call, update_status_call, delete_call,
  delete_collection_call, patch_call, request_of,
}
use apheleia.Client.Fake.{
  Testing, Action, Object, list_object, build_object, other_object, build_default, list_default,
  get_action, list_action, watch_action, create_action, update_action, update_subresource_action,
  delete_action, delete_collection_action, patch_subresource_action, FakeList, Default,
  FakeComponentBuilds, label_or_everything, append_matching, filtered_list,
}
use apheleia.Client.Fake

module _ (L : Testing) where
  -- The ComponentBuilds whose labels the selector matches.
  abbrev pub matching : L.Selector → List ComponentBuild → List ComponentBuild
  matching label [] = []
  matching label (item ∷ items) =
      let rest = matching label items in
      if L.matches label item.metadata.labels then item ∷ rest else rest

  append_matching_lem :
      (label : L.Selector) (done items : List ComponentBuild)
      → append_matching L label done items ≡ done ++ matching label items
  unfolding append_matching
  append_matching_lem label done [] = rw (append-nil done) refl
  append_matching_lem label done (item ∷ items) =
      elim (Bool-cases (L.matches label item.metadata.labels)) [
        | inl kept ↦
            rw
              (
                kept,
                append_matching_lem label (done ++ (item ∷ [])) items,
                append_assoc done (item ∷ []) (matching label items),
              )
              refl
        | inr dropped ↦ rw (dropped, append_matching_lem label done items) refl
      ]

  -- What becomes of the two results of Invokes: a list keeps its metadata, and those of its items
  -- that match.
  abbrev pub selected :
      ListOptions L.ListFields
      → Option (Object L.ListMeta) × Option Error
      → Option (Option (FakeList L.ListMeta) × Option Error)
  selected opts (none, err) = some (none, err)
  selected opts (some (list_object l), err) =
      some (
        some (record l { items = matching (label_or_everything L (L.label_of opts)) l.items }),
        err,
      )
  selected opts (some _, err) = none

  filtered_list_lem :
      (opts : ListOptions L.ListFields) (reply : Option (Object L.ListMeta) × Option Error)
      → filtered_list L opts reply ≡ selected opts reply
  unfolding filtered_list
  filtered_list_lem opts (none, err) = refl
  filtered_list_lem opts (some (list_object l), err) =
      rw (append_matching_lem (label_or_everything L (L.label_of opts)) [] l.items) refl
  filtered_list_lem opts (some (build_object cb), err) = refl
  filtered_list_lem opts (some other_object, err) = refl

  -- List of the client for tests makes one call of Invokes, and returns, of the list that this
  -- gives, the metadata and the items whose labels the selector of the options matches, all of them
  -- in their order, with the error that comes with it. Without an object it returns the error
  -- alone, and it panics on an object of another type.
  pub list-selected :
      (c : FakeComponentBuilds L) (opts : ListOptions L.ListFields) (s : L.State)
      → Fake.list L c opts s ≡ (
        selected opts (L.invokes (list_action c.ns opts) list_default s).0,
        (L.invokes (list_action c.ns opts) list_default s).1,
      )
  unfolding Fake.list
  list-selected c opts s =
      rw (filtered_list_lem opts (L.invokes (list_action c.ns opts) list_default s).0) refl

  module _ (Options : Type 0) where
    -- The state after a call of the client for tests.
    abbrev pub after :
        FakeComponentBuilds L → Call L.ListFields Options L.DeleteOptions → L.State → L.State
    after c (get_call name o) s = (Fake.get L c name s).1
    after c (list_call o) s = (Fake.list L c o s).1
    after c (watch_call o) s = (Fake.watch_all L c o s).1
    after c (create_call cb o) s = (Fake.create L c cb s).1
    after c (update_call cb o) s = (Fake.update L c cb s).1
    after c (update_status_call cb o) s = (Fake.update_status L c cb s).1
    after c (delete_call name o) s = (Fake.delete L c name o s).1
    after c (delete_collection_call o l) s = (Fake.delete_collection L c o l s).1
    after c (patch_call name pt contents o subs) s = (Fake.patch L c name pt contents subs s).1

    -- The state after an action.
    abbrev pub performed : Action L.ListFields L.DeleteOptions → L.State → L.State
    performed (watch_action ns o) s = (L.invokes_watch (watch_action ns o) s).1
    performed (list_action ns o) s = (L.invokes (list_action ns o) list_default s).1
    performed (delete_collection_action ns o) s =
        (L.invokes (delete_collection_action ns o) list_default s).1
    performed a s = (L.invokes a build_default s).1

    -- The verb of an action, and the namespace, the object and the subresources that it is for.
    abbrev pub place :
        Action L.ListFields L.DeleteOptions → Verb × (String × (Option String × List String))
    place (get_action ns name) = (http_get, (ns, (some name, [])))
    place (list_action ns o) = (http_get, (ns, (none, [])))
    place (watch_action ns o) = (http_get, (ns, (none, [])))
    place (create_action ns cb) = (http_post, (ns, (none, [])))
    place (update_action ns cb) = (http_put, (ns, (some cb.metadata.name, [])))
    place (update_subresource_action sub ns cb) =
        (http_put, (ns, (some cb.metadata.name, sub ∷ [])))
    place (delete_action ns name o) = (http_delete, (ns, (some name, [])))
    place (delete_collection_action ns o) = (http_delete, (ns, (none, [])))
    place (patch_subresource_action ns name pt contents subs) =
        (http_patch pt, (ns, (some name, subs)))

    abbrev pub place_of :
        RestRequest L.ListFields Options L.DeleteOptions
        → Verb × (String × (Option String × List String))
    place_of r = (r.verb, (r.namespace, (r.name, r.subresources)))

    -- Each call of the client for tests changes the state by one action, which has the verb of the
    -- request of the typed client for that call, and is for the same namespace, object and
    -- subresources.
    pub after-place :
        (ns : String) (call : Call L.ListFields Options L.DeleteOptions) (s : L.State)
        → (a : Action L.ListFields L.DeleteOptions) × (after (record { ns = ns }) call s
            ≡ performed a s)
          × (place a
              ≡ place_of
                  (request_of L.ListFields Options L.DeleteOptions (record { ns = ns }) call))
    unfolding Fake.get Fake.list Fake.watch_all Fake.create Fake.update Fake.update_status
        Fake.delete Fake.delete_collection Fake.patch Typed.get Typed.list Typed.watch_all
        Typed.create Typed.update Typed.update_status_of Typed.delete Typed.delete_collection
        Typed.patch
    after-place ns (get_call name o) s = (get_action ns name, refl, refl)
    after-place ns (list_call o) s = (list_action ns o, refl, refl)
    after-place ns (watch_call o) s = (watch_action ns o, refl, refl)
    after-place ns (create_call cb o) s = (create_action ns cb, refl, refl)
    after-place ns (update_call cb o) s = (update_action ns cb, refl, refl)
    after-place ns (update_status_call cb o) s =
        (update_subresource_action "status" ns cb, refl, refl)
    after-place ns (delete_call name o) s = (delete_action ns name o, refl, refl)
    after-place ns (delete_collection_call o l) s = (delete_collection_action ns l, refl, refl)
    after-place ns (patch_call name pt contents o subs) s =
        (patch_subresource_action ns name pt contents subs, refl, refl)
