-- ===== src/Api/Equal.antt =====
-- `deep_equal` decides equality of At values.
use kubernetes_programming.Prelude.{
  Bytes, Bool, true, List, [], ◌∷◌, ◌≡◌, ◌↔◌, refl, ap, Option, none, some, arith, str_eq→eq,
  str_eq_refl,
}
use kubernetes_programming.Api.{
  At, ObjectMeta, OwnerReference, list_eq, nilable_eq, bool_eq, label_eq, owner_eq, meta_eq,
  deep_equal,
}

list_eq→eq :
    {A : Type 0} (eq : A → A → Bool) (sound : (a b : A) → eq a b ≡ true → a ≡ b) (s t : List A)
    → list_eq eq s t ≡ true
    → s ≡ t
list_eq→eq eq sound [] [] h = refl
list_eq→eq eq sound [] (_ ∷ _) h = cc
list_eq→eq eq sound (_ ∷ _) [] h = cc
list_eq→eq eq sound (a ∷ s) (b ∷ t) h = ground (arith, sound a b, list_eq→eq eq sound s t)

list_eq_refl :
    {A : Type 0} (eq : A → A → Bool) (complete : (a : A) → eq a a ≡ true) (s : List A)
    → list_eq eq s s ≡ true
list_eq_refl eq complete [] = refl
list_eq_refl eq complete (a ∷ s) = ground (arith, complete a, list_eq_refl eq complete s)

nilable_eq→eq :
    {A : Type 0} (eq : A → A → Bool) (sound : (a b : A) → eq a b ≡ true → a ≡ b)
    (s t : Option (List A))
    → nilable_eq eq s t ≡ true
    → s ≡ t
nilable_eq→eq eq sound none none h = refl
nilable_eq→eq eq sound none (some _) h = cc
nilable_eq→eq eq sound (some _) none h = cc
nilable_eq→eq eq sound (some s) (some t) h = ap some (list_eq→eq eq sound s t h)

nilable_eq_refl :
    {A : Type 0} (eq : A → A → Bool) (complete : (a : A) → eq a a ≡ true) (s : Option (List A))
    → nilable_eq eq s s ≡ true
nilable_eq_refl eq complete none = refl
nilable_eq_refl eq complete (some s) = list_eq_refl eq complete s

bool_eq→eq : (a b : Bool) → bool_eq a b ≡ true → a ≡ b
unfolding bool_eq
bool_eq→eq a b h = ground arith

bool_eq_refl : (a : Bool) → bool_eq a a ≡ true
unfolding bool_eq
bool_eq_refl a = ground arith

label_eq→eq : (a b : Bytes × Bytes) → label_eq a b ≡ true → a ≡ b
unfolding label_eq
label_eq→eq (a, b) (c, d) h = ground (arith, str_eq→eq a c, str_eq→eq b d)

label_eq_refl : (a : Bytes × Bytes) → label_eq a a ≡ true
unfolding label_eq
label_eq_refl (a, b) = ground (arith, str_eq_refl a, str_eq_refl b)

module _ (r s : OwnerReference) where
  owner_eq→eq : owner_eq r s ≡ true → r ≡ s
  unfolding owner_eq
  owner_eq→eq h = ground (
    arith,
    str_eq→eq r.api_version s.api_version,
    str_eq→eq r.kind s.kind,
    str_eq→eq r.name s.name,
    str_eq→eq r.uid s.uid,
    bool_eq→eq r.controller s.controller,
  )

owner_eq_refl : (r : OwnerReference) → owner_eq r r ≡ true
unfolding owner_eq
owner_eq_refl r = ground (
  arith,
  str_eq_refl r.api_version,
  str_eq_refl r.kind,
  str_eq_refl r.name,
  str_eq_refl r.uid,
  bool_eq_refl r.controller,
)

module _ (r s : ObjectMeta) where
  meta_eq→eq : meta_eq r s ≡ true → r ≡ s
  unfolding meta_eq
  meta_eq→eq h = ground (
    arith,
    str_eq→eq r.name s.name,
    str_eq→eq r.namespace s.namespace,
    str_eq→eq r.uid s.uid,
    str_eq→eq r.resource_version s.resource_version,
    nilable_eq→eq label_eq label_eq→eq r.labels s.labels,
    nilable_eq→eq owner_eq owner_eq→eq r.owner_references s.owner_references,
  )

meta_eq_refl : (r : ObjectMeta) → meta_eq r r ≡ true
unfolding meta_eq
meta_eq_refl r = ground (
  arith,
  str_eq_refl r.name,
  str_eq_refl r.namespace,
  str_eq_refl r.uid,
  str_eq_refl r.resource_version,
  nilable_eq_refl label_eq label_eq_refl r.labels,
  nilable_eq_refl owner_eq owner_eq_refl r.owner_references,
)

pub deep_equal→eq : (a b : At) → deep_equal a b ≡ true → a ≡ b
unfolding deep_equal
deep_equal→eq a b h = ground (
  arith,
  str_eq→eq a.type_meta.kind b.type_meta.kind,
  str_eq→eq a.type_meta.api_version b.type_meta.api_version,
  meta_eq→eq a.meta b.meta,
  str_eq→eq a.spec.schedule b.spec.schedule,
  str_eq→eq a.spec.command b.spec.command,
  str_eq→eq a.status.phase b.status.phase,
)

pub deep_equal_refl : (a : At) → deep_equal a a ≡ true
unfolding deep_equal
deep_equal_refl a = ground (
  arith,
  str_eq_refl a.type_meta.kind,
  str_eq_refl a.type_meta.api_version,
  meta_eq_refl a.meta,
  str_eq_refl a.spec.schedule,
  str_eq_refl a.spec.command,
  str_eq_refl a.status.phase,
)

-- DeepEqual holds of two At values exactly when they are the same value.
deep_equal_iff : (a b : At) → (deep_equal a b ≡ true) ↔ (a ≡ b)
deep_equal_iff a b = (deep_equal→eq a b, λ e. ground (arith, deep_equal_refl a))
