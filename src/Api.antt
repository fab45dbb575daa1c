-- ===== src/Api.antt =====
-- pkg/apis/cnat/v1alpha1/types.go: the At resource, with the parts of the Kubernetes metadata that
-- the program reads or writes. Other metadata fields are carried unread and left out.
pub mod Equal
use kubernetes_programming.Prelude.{
  Bytes, codes, Bool, true, false, not, ◌&&◌, List, [], ◌∷◌, Option, none, some, if◌then◌else◌,
  str_eq,
}

-- metav1.OwnerReference.
pub record OwnerReference : Type 0 where
  pub api_version : Bytes
  pub kind : Bytes
  pub name : Bytes
  pub uid : Bytes
  pub controller : Bool

-- metav1.TypeMeta.
pub record TypeMeta : Type 0 where
  pub kind : Bytes
  pub api_version : Bytes

-- metav1.ObjectMeta. A nil map or slice is `none`, which DeepEqual tells from an empty one; the labels
-- stand in the order of their keys, each key once.
pub record ObjectMeta : Type 0 where
  pub name : Bytes
  pub namespace : Bytes
  pub uid : Bytes
  pub resource_version : Bytes
  pub labels : Option (List (Bytes × Bytes))
  pub owner_references : Option (List OwnerReference)

abbrev pub no_meta : ObjectMeta
no_meta = record {
  name = [];
  namespace = [];
  uid = [];
  resource_version = [];
  labels = none;
  owner_references = none;
}

abbrev pub phase_pending : Bytes
phase_pending = codes "PENDING"

abbrev pub phase_running : Bytes
phase_running = codes "RUNNING"

abbrev pub phase_done : Bytes
phase_done = codes "DONE"

pub record AtSpec : Type 0 where
  pub schedule : Bytes
  pub command : Bytes

pub record AtStatus : Type 0 where
  pub phase : Bytes

pub record At : Type 0 where
  pub type_meta : TypeMeta
  pub meta : ObjectMeta
  pub spec : AtSpec
  pub status : AtStatus

-- `items` is `none` for a nil slice.
pub record AtList : Type 0 where
  pub type_meta : TypeMeta
  pub resource_version : Bytes
  pub items : Option (List At)

abbrev pub with_phase : At → Bytes → At
with_phase at p = record at { status = record { phase = p } }

abbrev list_eq : {A : Type 0} → (A → A → Bool) → List A → List A → Bool
list_eq eq [] [] = true
list_eq eq [] (_ ∷ _) = false
list_eq eq (_ ∷ _) [] = false
list_eq eq (a ∷ s) (b ∷ t) = eq a b && list_eq eq s t

-- Both nil, or both not nil and equal in what they hold.
abbrev nilable_eq : {A : Type 0} → (A → A → Bool) → Option (List A) → Option (List A) → Bool
nilable_eq eq none none = true
nilable_eq eq none (some _) = false
nilable_eq eq (some _) none = false
nilable_eq eq (some s) (some t) = list_eq eq s t

bool_eq : Bool → Bool → Bool
bool_eq true b = b
bool_eq false b = not b

label_eq : Bytes × Bytes → Bytes × Bytes → Bool
label_eq (a, b) (c, d) = str_eq a c && str_eq b d

owner_eq : OwnerReference → OwnerReference → Bool
unfolding bool_eq
owner_eq r s =
    str_eq r.api_version s.api_version
    && str_eq r.kind s.kind
    && str_eq r.name s.name
    && str_eq r.uid s.uid
    && bool_eq r.controller s.controller

meta_eq : ObjectMeta → ObjectMeta → Bool
unfolding owner_eq label_eq
meta_eq r s =
    str_eq r.name s.name
    && str_eq r.namespace s.namespace
    && str_eq r.uid s.uid
    && str_eq r.resource_version s.resource_version
    && nilable_eq label_eq r.labels s.labels
    && nilable_eq owner_eq r.owner_references s.owner_references

-- reflect.DeepEqual on two At values.
unfoldable pub deep_equal : At → At → Bool
unfolding meta_eq
deep_equal a b =
    str_eq a.type_meta.kind b.type_meta.kind
    && str_eq a.type_meta.api_version b.type_meta.api_version
    && meta_eq a.meta b.meta
    && str_eq a.spec.schedule b.spec.schedule
    && str_eq a.spec.command b.spec.command
    && str_eq a.status.phase b.status.phase

-- The case of `switch instance.Status.Phase` that a phase selects, in the order of the cases.
pub data PhaseCase : Type 0 where
  pending running done other : PhaseCase

unfoldable pub phase_case : Bytes → PhaseCase
phase_case p =
    if str_eq p phase_pending
    then pending
    else if str_eq p phase_running
    then running
    else if str_eq p phase_done
    then done
    else other
