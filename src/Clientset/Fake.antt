-- ===== src/Clientset/Fake.antt =====
-- fake/clientset_generated.go: the clientset for tests, over client-go's object tracker and fakes.
pub mod Tracked
use kubernetes_programming.Prelude.{
  Bytes, codes, Bool, true, false, Option, none, some, List, [], ◌∷◌,
}
use kubernetes_programming.Clientset.Rest.{Result, made, failed, Exit, returned, panics}

-- Trackers, objects, resources, list options, watches and errors.
pub record TrackerTypes : Type 1 where
  pub Tracker : Type 0
  pub Object : Type 0
  pub Resource : Type 0
  pub ListOptions : Type 0
  pub Watch : Type 0
  pub Error : Type 0

-- testing.Action; a WatchActionImpl has list options.
pub record Action (t : TrackerTypes) : Type 0 where
  pub resource : t.Resource
  pub namespace : Bytes
  pub watch_options : Option t.ListOptions

-- testing.NewObjectTracker with the scheme and the decoder of the package, its methods Add and Watch,
-- and the zero ListOptions.
pub record TrackerLib (t : TrackerTypes) : Type 0 where
  pub new_object_tracker : t.Tracker
  pub add : t.Object → t.Tracker → Option t.Error × t.Tracker
  pub watch : t.Resource → Bytes → t.ListOptions → t.Tracker → Result t.Error t.Watch × t.Tracker
  pub no_options : t.ListOptions

-- What a watch reactor returns: whether it has handled the action, the watch, and the error.
pub record Reaction (t : TrackerTypes) : Type 0 where
  pub handled : Bool
  pub ret : Option t.Watch
  pub error : Option t.Error

-- The reactors that NewSimpleClientset adds: testing.ObjectReaction of the tracker, and a func.
pub data Reactor (t : TrackerTypes) : Type 0 where
  object_reaction : Reactor t
  watch_reaction : (Action t → t.Tracker → Reaction t × t.Tracker) → Reactor t

-- Clientset with the chains of testing.Fake, each reactor with its verb and resource or its resource
-- alone. The discovery and the clients that it hands out hold the same Fake.
pub record FakeClientset (t : TrackerTypes) : Type 0 where
  pub reaction_chain : List (Bytes × Bytes × Reactor t)
  pub watch_reaction_chain : List (Bytes × Reactor t)
  pub tracker : t.Tracker

module _ {t : TrackerTypes} (lib : TrackerLib t) where
  -- What follows o.Watch.
  unfoldable pub after_watch : Result t.Error t.Watch × t.Tracker → Reaction t × t.Tracker
  after_watch (failed e, o) = (record { handled = false; ret = none; error = some e }, o)
  after_watch (made watch, o) = (record { handled = true; ret = some watch; error = none }, o)

  unfoldable pub options_of : Option t.ListOptions → t.ListOptions
  options_of none = lib.no_options
  options_of (some opts) = opts

  -- The func that is added as the watch reactor.
  unfoldable pub react_to_watch : Action t → t.Tracker → Reaction t × t.Tracker
  unfolding after_watch options_of
  react_to_watch action o =
      after_watch (lib.watch action.resource action.namespace (options_of action.watch_options) o)

  -- The clientset around a tracker.
  unfoldable pub clientset_around : t.Tracker → FakeClientset t
  unfolding react_to_watch
  clientset_around o = record {
    reaction_chain = (codes "*", codes "*", object_reaction) ∷ [];
    watch_reaction_chain = (codes "*", watch_reaction react_to_watch) ∷ [];
    tracker = o;
  }

  add_objects :
      List t.Object → Option t.Error × t.Tracker → Exit t.Error (FakeClientset t) × t.Tracker
  unfolding clientset_around
  add_objects objects (some e, o) = (panics e, o)
  add_objects [] (none, o) = (returned (clientset_around o), o)
  add_objects (x ∷ objects) (none, o) = add_objects objects (lib.add x o)

  unfoldable pub new_simple_clientset : List t.Object → Exit t.Error (FakeClientset t) × t.Tracker
  unfolding add_objects
  new_simple_clientset objects = add_objects objects (none, lib.new_object_tracker)
