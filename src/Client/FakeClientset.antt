-- ===== src/Client/FakeClientset.antt =====
-- pkg/client/clientset/versioned/fake/clientset_generated.go: the clientset for tests;
-- typed/apheleia/v1alpha1/fake/fake_apheleia_client.go: its client of the group. The packages
-- testing and fakediscovery of client-go are a `Tracking`. Its state holds the trackers and the
-- values of type testing.Fake, which are pointed to.
pub mod Tracked
use apheleia.Base.{String, Bool, true, false, Option, none, some, List, [], ◌∷◌}
use apheleia.Platform.{Reply, Error, ok, err}
use apheleia.Client.Fake.{Testing, FakeComponentBuilds}

-- The function literal that reacts to a watch, by the variable that it captures.
pub data WatchReactor (Tracker : Type 0) : Type 0 where
  watch_of : Tracker → WatchReactor Tracker

pub record Tracking (Scheme : Type 0) : Type 1 where
  pub State : Type 0
  pub Object : Type 0
  pub Decoder : Type 0
  pub Tracker : Type 0
  -- *testing.Fake
  pub Fake : Type 0
  pub Discovery : Type 0
  pub RestClient : Type 0
  pub Reaction : Type 0
  pub Action : Type 0
  pub Resource : Type 0
  pub Watch : Type 0
  -- serializer.NewCodecFactory(scheme).UniversalDecoder()
  pub universal_decoder : Scheme → Decoder
  pub new_object_tracker : Scheme → Decoder → State → Tracker × State
  -- The tracker's methods Add and Watch
  pub add : Tracker → Object → State → Option Error × State
  pub watch : Tracker → Resource → String → State → Reply Watch × State
  -- The zero value in a new Clientset
  pub new_fake : State → Fake × State
  -- &fakediscovery.FakeDiscovery{Fake: …}
  pub fake_discovery : Fake → Discovery
  pub object_reaction : Tracker → Reaction
  pub get_resource : Action → Resource
  pub get_namespace : Action → String
  -- The methods of testing.Fake
  pub add_reactor : Fake → String → String → Reaction → State → State
  pub add_watch_reactor : Fake → String → WatchReactor Tracker → State → State

module _ {Scheme : Type 0} (T : Tracking Scheme) where
  pub record Clientset : Type 0 where
    pub fake : T.Fake
    pub discovery : T.Discovery
    pub tracker : T.Tracker

  -- The loop over the objects, which panics at the first error.
  unfoldable pub add_objects : T.Tracker → List T.Object → T.State → Option (Unit {0}) × T.State
  add_objects o [] s = (some tt, s)
  add_objects o (obj ∷ objects) s =
      let (e, s') = T.add o obj s in
      elim e [ none ↦ add_objects o objects s' | some _ ↦ (none, s') ]

  -- The reaction to a watch, which leaves the action to others where the tracker has an error.
  unfoldable pub watch_reaction :
      WatchReactor T.Tracker → T.Action → T.State → (Bool × Option T.Watch × Option Error) × T.State
  watch_reaction (watch_of o) action s =
      let (r, s') = T.watch o (T.get_resource action) (T.get_namespace action) s in
      (elim r [ err e ↦ (false, none, some e) | ok w ↦ (true, some w, none) ], s')

  -- What follows the loop.
  unfoldable pub wired : T.Tracker → T.State → Clientset × T.State
  wired o s =
      let (fake, s') = T.new_fake s in
      (
        record { fake = fake; discovery = T.fake_discovery fake; tracker = o },
        T.add_watch_reactor fake "*" (watch_of o)
            (T.add_reactor fake "*" "*" (T.object_reaction o) s'),
      )

  -- NewSimpleClientset, which has no result where it panics.
  unfoldable pub new_simple_clientset :
      Scheme → List T.Object → T.State → Option Clientset × T.State
  unfolding add_objects wired
  new_simple_clientset scheme objects s =
      let (o, s1) = T.new_object_tracker scheme (T.universal_decoder scheme) s in
      let (r, s2) = add_objects o objects s1 in
      elim r [ none ↦ (none, s2) | some _ ↦ (let (cs, s3) = wired o s2 in (some cs, s3)) ]

  -- The methods Discovery and Tracker
  unfoldable pub discovery : Clientset → T.Discovery
  discovery c = c.discovery

  unfoldable pub tracker : Clientset → T.Tracker
  tracker c = c.tracker

  pub record FakeApheleiaV1alpha1 : Type 0 where
    pub fake : T.Fake

  -- ApheleiaV1alpha1, over the clientset's own Fake
  unfoldable pub apheleia_v1alpha1 : Clientset → FakeApheleiaV1alpha1
  apheleia_v1alpha1 c = record { fake = c.fake }

  -- &FakeComponentBuilds{c, namespace}: the client of the group that is embedded, and the rest
  unfoldable pub component_builds :
      {L : Testing} → FakeApheleiaV1alpha1 → String → FakeApheleiaV1alpha1 × FakeComponentBuilds L
  component_builds c namespace = (c, record { ns = namespace })

  -- A pointer that is nil
  unfoldable pub rest_client : FakeApheleiaV1alpha1 → Option T.RestClient
  rest_client c = none
