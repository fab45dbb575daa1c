-- ===== src/DeepCopy/Lists.antt =====
-- DeepCopy of an AtList.
use kubernetes_programming.Prelude.{
  ℕ, zero, suc, ◌+◌, ◌<◌, ◌≤◌, List, [], ◌∷◌, Option, none, some, ◌≡◌, ◌≢◌, refl, ap, ◌∙◌, arith,
}
use kubernetes_programming.Api.{At, AtList}
use kubernetes_programming.DeepCopy.{Library, Heap, deep_copy_into, copy_items}
use kubernetes_programming.DeepCopy.Into.{
  View, IsDeep, value, IsWithin, IsValid, into-store, into-value, into-IsValid, eq_self, ne_test,
}

module _ {l : Library} (v : View l) where
  -- The Ats of an array.
  unfoldable pub items_at : Heap l → ℕ → ℕ → List At
  items_at h base zero = []
  items_at h base (suc n) = value v h base ∷ items_at h (base + 1) n

  unfoldable pub items_of : Heap l → Option (ℕ × ℕ) → Option (List At)
  unfolding items_at
  items_of h none = none
  items_of h (some (base, n)) = some (items_at h base n)

  -- The AtList at an address, as a value.
  unfoldable pub list_value : Heap l → ℕ → AtList
  unfolding items_of
  list_value h a = record {
    type_meta = (h.lists a).type_meta;
    resource_version = v.read_list h.store (h.lists a).meta;
    items = items_of h (h.lists a).items;
  }

  pub items_same :
      (h h' : Heap l) (base n : ℕ)
      → ((a : ℕ) → base ≤ a → a < base + n → value v h' a ≡ value v h a)
      → items_at h' base n ≡ items_at h base n
  unfolding items_at
  items_same h h' base zero e = refl
  items_same h h' base (suc n) e = λ i.
      e base (omega arith) (omega arith) i
      ∷ items_same h h' (base + 1) n (λ a x y. e a (omega arith) (omega arith)) i

  pub items_of-same :
      (h h' : Heap l) (o : Option (ℕ × ℕ)) (k : ℕ)
      → IsWithin v o k
      → ((a : ℕ) → a < k → value v h' a ≡ value v h a)
      → items_of h' o ≡ items_of h o
  unfolding items_of
  items_of-same h h' none k w e = refl
  items_of-same h h' (some (base, n)) k w e =
      ap some (items_same h h' base n (λ a x y. e a (omega arith)))

module _ {l : Library} (v : View l) (deep : IsDeep v) where
  into-next : (p q : ℕ) (h : Heap l) (a : ℕ) → a ≤ h.next_at → a ≤ (deep_copy_into l p q h).next_at
  unfolding deep_copy_into
  into-next p q h a c = c

  -- The loop leaves what lies outside of the new array as it was.
  pub copy_items-others :
      (p q n : ℕ) (h : Heap l)
      → IsValid v h
      → p + n ≤ q
      → q + n ≤ h.next_at
      → (a : ℕ) → a < q
      → value v (copy_items l p q n h) a ≡ value v h a
  unfolding copy_items
  copy_items-others p q zero h ok b c a d = refl
  copy_items-others p q (suc n) h ok b c a d =
      let n₀ : p ≢ q = λ e. omega arith in
      copy_items-others (p + 1) (q + 1) n (deep_copy_into l p q h)
        (into-IsValid v deep p q h ok n₀ (omega arith)) (omega arith)
        (into-next p q h (q + 1 + n) (omega arith)) a (omega arith)
      ∙ into-value v deep p q h ok n₀ (omega arith) a (omega arith)
      ∙ rw (ne_test a q (λ e. omega arith)) refl

  pub copy_items-IsValid :
      (p q n : ℕ) (h : Heap l)
      → IsValid v h
      → p + n ≤ q
      → q + n ≤ h.next_at
      → IsValid v (copy_items l p q n h)
  unfolding copy_items
  copy_items-IsValid p q zero h ok b c = ok
  copy_items-IsValid p q (suc n) h ok b c =
      copy_items-IsValid (p + 1) (q + 1) n (deep_copy_into l p q h)
        (into-IsValid v deep p q h ok (λ e. omega arith) (omega arith)) (omega arith)
        (into-next p q h (q + 1 + n) (omega arith))

  -- The new array holds the values of the old one.
  pub copy_items-copied :
      (p q n : ℕ) (h : Heap l)
      → IsValid v h
      → p + n ≤ q
      → q + n ≤ h.next_at
      → items_at v (copy_items l p q n h) q n ≡ items_at v h p n
  unfolding copy_items items_at
  copy_items-copied p q zero h ok b c = refl
  copy_items-copied p q (suc n) h ok b c =
      let n₀ : p ≢ q = λ e. omega arith in
      let h₁ = deep_copy_into l p q h in
      let ok₁ = into-IsValid v deep p q h ok n₀ (omega arith) in
      let c₁ = into-next p q h (q + 1 + n) (omega arith) in
      let first =
        copy_items-others (p + 1) (q + 1) n h₁ ok₁ (omega arith) c₁ q (omega arith)
        ∙ into-value v deep p q h ok n₀ (omega arith) q (omega arith)
        ∙ rw (eq_self q) refl in
      let rest =
        copy_items-copied (p + 1) (q + 1) n h₁ ok₁ (omega arith) c₁
        ∙ items_same v h h₁ (p + 1) n (λ a x y.
          into-value v deep p q h ok n₀ (omega arith) a (omega arith)
          ∙ rw (ne_test a q (λ e. omega arith)) refl) in
      λ i. first i ∷ rest i

  pub copy_items-lists : (p q n : ℕ) (h : Heap l) → (copy_items l p q n h).lists ≡ h.lists
  unfolding copy_items
  copy_items-lists p q zero h = refl
  copy_items-lists p q (suc n) h =
      copy_items-lists (p + 1) (q + 1) n (deep_copy_into l p q h) ∙ unfold deep_copy_into in refl

  -- The references of a list's metadata outlive the loop.
  pub copy_items-reads :
      (p q n : ℕ) (h : Heap l) (m : l.ListMeta)
      → IsValid v h
      → p + n ≤ q
      → q + n ≤ h.next_at
      → v.IsInList h.store m
      → v.read_list (copy_items l p q n h).store m ≡ v.read_list h.store m
  unfolding copy_items
  copy_items-reads p q zero h m ok b c i = refl
  copy_items-reads p q (suc n) h m ok b c i =
      let n₀ : p ≢ q = λ e. omega arith in
      let kept = deep.keeps (h.ats p).meta h.store in
      let e = into-store p q h n₀ in
      copy_items-reads (p + 1) (q + 1) n (deep_copy_into l p q h) m
        (into-IsValid v deep p q h ok n₀ (omega arith)) (omega arith)
        (into-next p q h (q + 1 + n) (omega arith)) (rw e (kept.stays_list m i))
      ∙ rw e (kept.reads_list m i)
