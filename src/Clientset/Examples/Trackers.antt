-- ===== src/Clientset/Examples/Trackers.antt =====
-- A tracker of numbers that takes no 0.
use kubernetes_programming.Prelude.{
  Bytes, codes, ℕ, zero, suc, Option, none, some, List, [], ◌∷◌, ◌++◌, ◌≡◌, refl,
}
use kubernetes_programming.Clientset.Rest.{made, panics}
use kubernetes_programming.Clientset.Fake.{TrackerTypes, TrackerLib, new_simple_clientset}
use kubernetes_programming.Clientset.Fake.Tracked.{Tracked, new_simple_clientset-Tracked}

abbrev types : TrackerTypes
types = record {
  Tracker = List ℕ;
  Object = ℕ;
  Resource = Bytes;
  ListOptions = ℕ;
  Watch = List ℕ;
  Error = Bytes;
}

abbrev add_positive : ℕ → List ℕ → Option Bytes × List ℕ
add_positive zero o = (some (codes "zero"), o)
add_positive (suc n) o = (none, o ++ suc n ∷ [])

abbrev lib : TrackerLib types
lib = record {
  new_object_tracker = [];
  add = add_positive;
  watch = λ r ns opts o. (made o, o);
  no_options = 0;
}

new_simple_clientset-Tracked_example :
    Tracked lib (1 ∷ 2 ∷ []) (new_simple_clientset lib (1 ∷ 2 ∷ []))
new_simple_clientset-Tracked_example = new_simple_clientset-Tracked lib (1 ∷ 2 ∷ [])

refused_second : new_simple_clientset lib (1 ∷ 0 ∷ 2 ∷ []) ≡ (panics (codes "zero"), 1 ∷ [])
unfolding new_simple_clientset
refused_second = refl
