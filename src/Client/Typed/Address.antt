-- ===== src/Client/Typed/Address.antt =====
-- pkg/client/clientset/versioned/typed/apheleia/v1alpha1/componentbuild.go: what a server takes
-- from a request of the typed client.
use mathlib.Core.Option
use apheleia.Base.{
  ℕ, String, ◌≡◌, refl, true, Option, none, some, List, [], ◌∷◌, ◌==◌, eq_iff, Bool-cases, inl, inr,
  if◌then◌else◌,
}
use apheleia.Api.{ComponentBuild}
use apheleia.Client.Typed.{
  ComponentBuilds, ListOptions, RestRequest, Verb, http_get, http_post, http_put, http_delete,
  http_patch, Parameters, no_parameters, parameters, list_parameters, Body, no_body, object_body,
  delete_body, patch_body, get, list, watch_all, create, update, update_status_of, delete,
  delete_collection, patch,
}

same : (s : String) → (s == s) ≡ true
same s = (eq_iff s s).1 refl

module _ (ListFields Options DeleteOptions : Type 0) where
  -- A call of one of the methods of the client.
  pub data Call : Type 0 where
    get_call : String → Options → Call
    list_call : ListOptions ListFields → Call
    watch_call : ListOptions ListFields → Call
    create_call : ComponentBuild → Options → Call
    update_call : ComponentBuild → Options → Call
    update_status_call : ComponentBuild → Options → Call
    delete_call : String → DeleteOptions → Call
    delete_collection_call : DeleteOptions → ListOptions ListFields → Call
    patch_call : String → String → List ℕ → Options → List String → Call

  abbrev pub request_of : ComponentBuilds → Call → RestRequest ListFields Options DeleteOptions
  request_of c (get_call name o) = get _ _ _ c name o
  request_of c (list_call o) = list _ _ _ c o
  request_of c (watch_call o) = watch_all _ _ _ c o
  request_of c (create_call cb o) = create _ _ _ c cb o
  request_of c (update_call cb o) = update _ _ _ c cb o
  request_of c (update_status_call cb o) = update_status_of _ _ _ c cb o
  request_of c (delete_call name o) = delete _ _ _ c name o
  request_of c (delete_collection_call o l) = delete_collection _ _ _ c o l
  request_of c (patch_call name pt contents o subs) = patch _ _ _ c name pt contents o subs

  -- The call that an update of an object is, by its subresources.
  abbrev put_call : List String → ComponentBuild → Options → Option Call
  put_call [] cb o = some (update_call cb o)
  put_call (s ∷ []) cb o = if s == "status" then some (update_status_call cb o) else none
  put_call (s ∷ t ∷ subs) cb o = none

  -- The API of Kubernetes: the call that a request for a resource is, by its verb, its name, its
  -- subresources, its parameters and its body.
  abbrev pub route :
      Verb
      → Option String
      → List String
      → Parameters ListFields Options DeleteOptions
      → Body ListFields Options DeleteOptions
      → Option Call
  route http_get (some name) [] (parameters o) no_body = some (get_call name o)
  route http_get none [] (list_parameters l) no_body =
      if l.watch then some (watch_call l) else some (list_call l)
  route http_post none [] (parameters o) (object_body cb) = some (create_call cb o)
  route http_put (some name) subs (parameters o) (object_body cb) =
      let call = put_call subs cb o in if name == cb.metadata.name then call else none
  route http_delete (some name) [] no_parameters (delete_body o) = some (delete_call name o)
  route http_delete none [] (list_parameters l) (delete_body o) = some (delete_collection_call o l)
  route (http_patch pt) (some name) subs (parameters o) (patch_body contents) =
      some (patch_call name pt contents o subs)
  route _ _ _ _ _ = none

  -- The namespace and the call that a server takes from a request for ComponentBuilds.
  abbrev pub served : RestRequest ListFields Options DeleteOptions → Option (String × Call)
  served r =
      let call = route r.verb r.name r.subresources r.params r.body in
      if r.resource == "componentbuilds" then Option.map (λ x. (r.namespace, x)) call else none

  -- What a call means: a watch has the flag of a watch, and a list with that flag is a watch.
  abbrev pub meant : Call → Call
  meant (list_call o) = if o.watch then watch_call o else list_call o
  meant (watch_call o) = watch_call (record o { watch = true })
  meant call = call

  -- A server that follows the API of Kubernetes takes from the request that each method of the
  -- client sends the client's namespace and the call that was made, with all its arguments: the
  -- object or the name, the options, the subresources and the contents of a patch. A watch comes
  -- with the flag of a watch, and a list that is asked for with that flag is taken for a watch.
  pub served-request_of :
      (c : ComponentBuilds) (call : Call) → served (request_of c call) ≡ some (c.ns, meant call)
  unfolding get list watch_all create update update_status_of delete delete_collection patch
  served-request_of c (get_call name o) = refl
  served-request_of c (list_call o) = elim (Bool-cases o.watch) [
    | inl e ↦ rw e refl
    | inr e ↦ rw e refl
  ]
  served-request_of c (watch_call o) = refl
  served-request_of c (create_call cb o) = refl
  served-request_of c (update_call cb o) = rw (same cb.metadata.name) refl
  served-request_of c (update_status_call cb o) = rw (same cb.metadata.name) refl
  served-request_of c (delete_call name o) = refl
  served-request_of c (delete_collection_call o l) = refl
  served-request_of c (patch_call name pt contents o subs) = refl
