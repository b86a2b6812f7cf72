-- ===== src/Tests/Fakes.antt =====
-- The theorems on the schemes and on the clientset for tests at concrete data: the library in
-- memory, and a package testing whose one tracker holds objects by their names and refuses a name
-- that it holds.
use apheleia.Base.{
  String, ◌≡◌, true, false, Bool, ◌==◌, none, some, List, [], ◌∷◌, ◌++◌, if◌then◌else◌,
}
use apheleia.Platform.{Error, ok}
use apheleia.Manager.{add_to_scheme}
use apheleia.Client.Schemes.{
  apis_add_to_scheme, clientset_add_to_scheme, fake_add_to_scheme, clientset_scheme, fake_scheme,
}
use apheleia.Client.Schemes.Agreement.{schemes-agree}
use apheleia.Client.FakeClientset.{Tracking, WatchReactor}
use apheleia.Tests.Local.{local, local-BuildsInOrder}

abbrev registered_types : List String
registered_types = "v1alpha1" ∷ "ComponentBuild" ∷ "ComponentBuildList" ∷ []

schemes-agree_example :
    (add_to_scheme local [] ≡ ok registered_types)
    × (apis_add_to_scheme local [] ≡ ok registered_types)
    × (clientset_add_to_scheme local [] ≡ ok registered_types)
    × (fake_add_to_scheme local [] ≡ ok registered_types)
    × (clientset_scheme local ≡ some (registered_types ++ ("v1" ∷ [])))
    × (fake_scheme local ≡ some (registered_types ++ ("v1" ∷ [])))
schemes-agree_example = schemes-agree local local-BuildsInOrder []

-- The state of the one tracker and of the one Fake.
record Tracked : Type 0 where
  objects : List String
  reactions : List (String × String × String)
  watch_reactions : List (String × WatchReactor (Unit {0}))

abbrev holds : String → List String → Bool
holds name [] = false
holds name (x ∷ xs) = let rest = holds name xs in if x == name then true else rest

abbrev already_exists : Error
already_exists = record { reason = "AlreadyExists"; message = "it exists" }

abbrev tracking : Tracking (List String)
tracking = record {
  State = Tracked;
  Object = String;
  Decoder = Unit;
  Tracker = Unit;
  Fake = Unit;
  Discovery = String;
  RestClient = Unit;
  Reaction = String;
  Action = String;
  Resource = String;
  Watch = String;
  universal_decoder = λ scheme. tt;
  new_object_tracker = λ scheme decoder s. (tt, record s { objects = [] });
  add = λ o name s.
      if holds name s.objects
      then (some already_exists, s)
      else (none, record s { objects = s.objects ++ (name ∷ []) });
  watch = λ o resource ns s. (ok ns, s);
  new_fake = λ s. (tt, record s { reactions = []; watch_reactions = [] });
  fake_discovery = λ f. "discovery";
  object_reaction = λ o. "tracker";
  get_resource = λ action. "componentbuilds";
  get_namespace = λ action. "default";
  add_reactor =
      λ f verb resource x s. record s { reactions = s.reactions ++ ((verb, resource, x) ∷ []) };
  add_watch_reactor =
      λ f resource x s. record s { watch_reactions = s.watch_reactions ++ ((resource, x) ∷ []) };
}

abbrev no_objects : Tracked
no_objects = record { objects = []; reactions = []; watch_reactions = [] }
