-- ===== src/Clientset/Scheme.antt =====
-- scheme/register.go of the clientset; fake/register.go has the same bodies.
use kubernetes_programming.Prelude.{codes, Option, none, some, [], ◌∷◌, ◌≡◌, refl, ◌∙◌}
use kubernetes_programming.Schemes
use kubernetes_programming.Schemes.{
  GroupVersion, SchemeLib, AddsAll, add_known_types, add_to_scheme_lem,
}
use kubernetes_programming.Clientset.Rest.{Exit, returned, panics}

abbrev v1 : GroupVersion
v1 = record { group = []; version = codes "v1" }

module _ {S E : Type 0} (lib : SchemeLib S E) where
  unfoldable pub add_to_scheme : S → Option E × S
  add_to_scheme s = lib.add_all (Schemes.add_to_scheme lib ∷ []) s

  -- utilruntime.Must, before what follows it.
  unfoldable pub must : {A : Type 0} → Option E × S → (S → Exit E A × S) → Exit E A × S
  must (some e, s) next = (panics e, s)
  must (none, s) next = next s

  -- With a scheme builder as documented, AddToScheme registers the types and cannot fail.
  pub add_to_scheme-known : AddsAll lib → (s : S) → add_to_scheme s ≡ add_known_types lib s
  unfolding add_to_scheme add_known_types
  add_to_scheme-known all s =
      all.applies (Schemes.add_to_scheme lib) [] s _ (add_to_scheme_lem lib all s) ∙ all.ends _

  -- The package's init, for a new Scheme.
  unfoldable pub init : S → Exit E Unit × S
  unfolding add_to_scheme must
  init scheme = must (add_to_scheme (lib.add_to_group_version v1 scheme)) (λ s. (returned tt, s))

  -- So the init of the package never panics, and leaves a Scheme to which the types have been added.
  init_lem :
      AddsAll lib
      → (scheme : S)
      → init scheme ≡ (returned tt, (add_known_types lib (lib.add_to_group_version v1 scheme)).1)
  unfolding init must add_known_types
  init_lem all scheme = rw (add_to_scheme-known all _) refl
