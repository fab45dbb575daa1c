-- ===== src/Schemes.antt =====
-- pkg/apis/cnat/v1alpha1/register.go, over an interface to the schemes of apimachinery.
pub mod Kubebuilder
pub mod Examples
use kubernetes_programming.Prelude.{Bytes, codes, Option, none, some, List, [], ◌∷◌, ◌≡◌, refl, ◌∙◌}

pub record GroupVersion : Type 0 where
  pub group : Bytes
  pub version : Bytes

pub record GroupName : Type 0 where
  pub group : Bytes
  pub name : Bytes

-- The Go types that are registered: those of pkg/apis, and those of the same names in cnat-kubebuilder,
-- which are other types.
pub data GoType : Type 0 where
  at at_list kubebuilder_at kubebuilder_at_list : GoType

-- The methods AddKnownTypes and (*SchemeBuilder).AddToScheme, and metav1.AddToGroupVersion; `S` has
-- the scheme that is changed.
pub record SchemeLib (S E : Type 0) : Type 0 where
  pub add_known_types : GroupVersion → List GoType → S → S
  pub add_to_group_version : GroupVersion → S → S
  pub add_all : List (S → Option E × S) → S → Option E × S

-- The documented behaviour of AddToScheme: it applies all the stored functions to the scheme, and is
-- abandoned with the error of one that fails.
pub record AddsAll {S E : Type 0} (lib : SchemeLib S E) : Type 0 where
  pub ends : (s : S) → lib.add_all [] s ≡ (none, s)
  pub applies :
      (f : S → Option E × S) (fs : List (S → Option E × S)) (s u : S)
      → f s ≡ (none, u)
      → lib.add_all (f ∷ fs) s ≡ lib.add_all fs u
  pub abandons :
      (f : S → Option E × S) (fs : List (S → Option E × S)) (s u : S) (e : E)
      → f s ≡ (some e, u)
      → lib.add_all (f ∷ fs) s ≡ (some e, u)

abbrev pub scheme_group_version : GroupVersion
scheme_group_version = record {
  group = codes "cnat.programming-kubernetes.info";
  version = codes "v1alpha1";
}

-- Kind and Resource.
unfoldable pub kind : Bytes → GroupName
kind s = record { group = scheme_group_version.group; name = s }

unfoldable pub resource : Bytes → GroupName
resource s = record { group = scheme_group_version.group; name = s }

module _ {S E : Type 0} (lib : SchemeLib S E) where
  unfoldable pub add_known_types : S → Option E × S
  add_known_types s = (
    none,
    lib.add_to_group_version scheme_group_version
        (lib.add_known_types scheme_group_version (at ∷ at_list ∷ []) s),
  )

  unfoldable pub add_to_scheme : S → Option E × S
  unfolding add_known_types
  add_to_scheme s = lib.add_all (add_known_types ∷ []) s

  -- With a scheme builder as documented, AddToScheme cannot fail.
  pub add_to_scheme_lem : AddsAll lib → (s : S) → add_to_scheme s ≡ add_known_types s
  unfolding add_to_scheme add_known_types
  add_to_scheme_lem all s = all.applies add_known_types [] s _ refl ∙ all.ends _
