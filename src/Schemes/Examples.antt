-- ===== src/Schemes/Examples.antt =====
-- A scheme builder that applies one function after the other.
use kubernetes_programming.Prelude.{Option, none, some, List, [], ◌∷◌, ◌≡◌, refl, ap, ◌∙◌}
use kubernetes_programming.Schemes.{GroupVersion, GoType, SchemeLib, AddsAll}

module _ {S E : Type 0} where
  abbrev add_each : List (S → Option E × S) → Option E × S → Option E × S
  add_each [] x = x
  add_each (f ∷ fs) (none, s) = add_each fs (f s)
  add_each (f ∷ fs) (some e, s) = (some e, s)

  add_each_abandoned :
      (fs : List (S → Option E × S)) (e : E) (s : S) → add_each fs (some e, s) ≡ (some e, s)
  add_each_abandoned [] e s = refl
  add_each_abandoned (f ∷ fs) e s = refl

  abbrev pub in_order :
      (GroupVersion → List GoType → S → S) → (GroupVersion → S → S) → SchemeLib S E
  in_order types version = record {
    add_known_types = types;
    add_to_group_version = version;
    add_all = λ fs s. add_each fs (none, s);
  }

  pub in_order-AddsAll :
      (types : GroupVersion → List GoType → S → S) (version : GroupVersion → S → S)
      → AddsAll (in_order types version)
  in_order-AddsAll types version = record {
    ends = λ s. refl;
    applies = λ f fs s u h. ap (add_each fs) h;
    abandons = λ f fs s u e h. ap (add_each fs) h ∙ add_each_abandoned fs e u;
  }
