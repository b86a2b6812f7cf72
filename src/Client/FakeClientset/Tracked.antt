-- ===== src/Client/FakeClientset/Tracked.antt =====
-- pkg/client/clientset/versioned/fake/clientset_generated.go: what the tracker of a new clientset
-- for tests holds, and what the clientset reacts with.
use apheleia.Base.{String, ◌≡◌, ◌⊎◌, Bool, true, false, Option, none, some, List, [], ◌∷◌, ◌++◌}
use apheleia.Platform.{Reply, Error, ok, err}
use apheleia.Client.FakeClientset.{Tracking, Clientset, WatchReactor, watch_of, watch_reaction}

abbrev pub is_ok : {A : Type 0} → Reply A → Bool
is_ok (ok a) = true
is_ok (err e) = false

abbrev pub error_of : {A : Type 0} → Reply A → Option Error
error_of (ok a) = none
error_of (err e) = some e

-- What can be seen of a state of the package testing, and how its functions change it. The tracker
-- holds the objects that were added, a list by its items, and a reaction is put at the end of its
-- chain.
pub record IsTracking {Scheme : Type 0} (T : Tracking Scheme) : Type 0 where
  pub items_of : T.Object → List T.Object
  pub tracked : T.Tracker → T.State → List T.Object
  pub reactions : T.Fake → T.State → List (String × String × T.Reaction)
  pub watch_reactions : T.Fake → T.State → List (String × WatchReactor T.Tracker)
  pub new_object_tracker-tracked :
      (scheme : Scheme) (d : T.Decoder) (s : T.State)
      → let (o, s') = T.new_object_tracker scheme d s in tracked o s' ≡ []
  pub add-tracked :
      (o : T.Tracker) (obj : T.Object) (s : T.State)
      → (T.add o obj s).0 ≡ none
      → tracked o (T.add o obj s).1 ≡ tracked o s ++ items_of obj
  pub new_fake-tracked : (o : T.Tracker) (s : T.State) → tracked o (T.new_fake s).1 ≡ tracked o s
  pub new_fake-reactions : (s : T.State) → let (f, s') = T.new_fake s in reactions f s' ≡ []
  pub new_fake-watch_reactions :
      (s : T.State) → let (f, s') = T.new_fake s in watch_reactions f s' ≡ []
  pub add_reactor-tracked :
      (o : T.Tracker) (f : T.Fake) (verb resource : String) (x : T.Reaction) (s : T.State)
      → tracked o (T.add_reactor f verb resource x s) ≡ tracked o s
  pub add_reactor-reactions :
      (f : T.Fake) (verb resource : String) (x : T.Reaction) (s : T.State)
      → reactions f (T.add_reactor f verb resource x s)
        ≡ reactions f s ++ ((verb, resource, x) ∷ [])
  pub add_reactor-watch_reactions :
      (f : T.Fake) (verb resource : String) (x : T.Reaction) (s : T.State)
      → watch_reactions f (T.add_reactor f verb resource x s) ≡ watch_reactions f s
  pub add_watch_reactor-tracked :
      (o : T.Tracker) (f : T.Fake) (resource : String) (x : WatchReactor T.Tracker) (s : T.State)
      → tracked o (T.add_watch_reactor f resource x s) ≡ tracked o s
  pub add_watch_reactor-reactions :
      (f : T.Fake) (resource : String) (x : WatchReactor T.Tracker) (s : T.State)
      → reactions f (T.add_watch_reactor f resource x s) ≡ reactions f s
  pub add_watch_reactor-watch_reactions :
      (f : T.Fake) (resource : String) (x : WatchReactor T.Tracker) (s : T.State)
      → watch_reactions f (T.add_watch_reactor f resource x s)
        ≡ watch_reactions f s ++ ((resource, x) ∷ [])

module _ {Scheme : Type 0} (T : Tracking Scheme) (I : IsTracking T) where
  abbrev pub items : List T.Object → List T.Object
  items [] = []
  items (obj ∷ objects) = I.items_of obj ++ items objects

  -- The tracker that holds the objects before has refused an object.
  pub record IsRefused (objects : List T.Object) : Type 0 where
    pub front : List T.Object
    pub refused : T.Object
    pub back : List T.Object
    pub splits : objects ≡ front ++ (refused ∷ back)
    pub o : T.Tracker
    pub state : T.State
    pub error : Error
    pub holds : I.tracked o state ≡ items front
    pub refuses : (T.add o refused state).0 ≡ some error

  -- The clientset and the state that were made: the tracker holds the objects, and the clientset
  -- answers from it.
  pub record IsMade (objects : List T.Object) (cs : Clientset T) (s : T.State) : Type 0 where
    pub holds : I.tracked cs.tracker s ≡ items objects
    pub reacts : I.reactions cs.fake s ≡ ("*", "*", T.object_reaction cs.tracker) ∷ []
    pub watches : I.watch_reactions cs.fake s ≡ ("*", watch_of cs.tracker) ∷ []
    pub handles :
        (action : T.Action) (s' : T.State)
        → (watch_reaction T (watch_of cs.tracker) action s').0.0
          ≡ is_ok (T.watch cs.tracker (T.get_resource action) (T.get_namespace action) s').0
    pub passes_on :
        (action : T.Action) (s' : T.State)
        → (watch_reaction T (watch_of cs.tracker) action s').0.2
          ≡ error_of (T.watch cs.tracker (T.get_resource action) (T.get_namespace action) s').0
    pub discovers : cs.discovery ≡ T.fake_discovery cs.fake

  abbrev Added : List T.Object → T.Tracker → Option (Unit {0}) × T.State → Type 0
  Added objects o x =
      ((x.0 ≡ some tt) × (I.tracked o x.1 ≡ items objects)) ⊎ ((x.0 ≡ none) × IsRefused objects)
