-- ===== src/Schemes/Kubebuilder.antt =====
-- cnat-kubebuilder/api/v1alpha1: groupversion_info.go, and the init of at_types.go.
use kubernetes_programming.Prelude.{codes, List, [], ◌∷◌}
use kubernetes_programming.Schemes.{GroupVersion, GoType, kubebuilder_at, kubebuilder_at_list}

abbrev pub group_version : GroupVersion
group_version = record {
  group = codes "cnat.programming-kubernetes.info";
  version = codes "v1alpha1";
}

-- What has been registered with SchemeBuilder once init has run.
abbrev pub registered : List GoType
registered = kubebuilder_at ∷ kubebuilder_at_list ∷ []

-- `add_registered` is AddToScheme of a scheme.Builder for a group version and the objects that have
-- been registered with it.
unfoldable pub add_to_scheme : {S R : Type 0} → (GroupVersion → List GoType → S → R) → S → R
add_to_scheme add_registered s = add_registered group_version registered s
