-- ===== src/DeepCopy/Slices.antt =====
-- The copy of the items of an AtList into a new array.
use kubernetes_programming.Prelude.{
  ℕ, ◌+◌, ◌<◌, ◌≤◌, ◌==◌, some, ◌≡◌, ◌≢◌, refl, ap, ◌∙◌, arith, if◌then◌else◌, Bool-cases, inl, inr,
}
use kubernetes_programming.DeepCopy.{Library, Heap, set_list, new_ats, copy_slice}
use kubernetes_programming.DeepCopy.Into.{View, IsDeep, value, IsValid, eq_self, ne_test}
use kubernetes_programming.DeepCopy.Copies.{new_ats-value, new_ats-IsValid}
use kubernetes_programming.DeepCopy.Lists.{
  items_at, items_of-same, list_value, items_same, copy_items-others, copy_items-copied,
  copy_items-lists, copy_items-reads,
}

module _ {l : Library} (v : View l) (deep : IsDeep v) where
  -- The memory before the loop: the array is new and the copy's items are that array.
  abbrev allotted : ℕ → ℕ → Heap l → Heap l
  allotted q n h =
      let h₁ = new_ats l n h in
      set_list l q (record (h₁.lists q) { items = some (h.next_at, n) }) h₁

  allotted-value :
      (q n : ℕ) (h : Heap l) (a : ℕ) → a < h.next_at → value v (allotted q n h) a ≡ value v h a
  unfolding new_ats value
  allotted-value q n h a c = new_ats-value v deep n h a c

  allotted-lists :
      (q n : ℕ) (h : Heap l) (a : ℕ)
      → (allotted q n h).lists a
        ≡ (if a == q then record (h.lists q) { items = some (h.next_at, n) } else h.lists a)
  unfolding new_ats
  allotted-lists q n h a = refl

  allotted-next : (q n : ℕ) (h : Heap l) → (allotted q n h).next_at ≡ h.next_at + n
  unfolding new_ats
  allotted-next q n h = refl

  whole : (a : ℕ) → a ≤ a
  whole a = omega arith

  allotted-IsValid :
      (q n : ℕ) (h : Heap l) → IsValid v h → q < h.next_list → IsValid v (allotted q n h)
  allotted-IsValid q n h ok c =
      let ok' = new_ats-IsValid v deep n h ok in
      record {
        at_in = ok'.at_in;
        list_in = λ a d. elim (Bool-cases (a == q)) [
          | inl e ↦ rw e (ok'.list_in q (unfold new_ats in c))
          | inr e ↦ rw e (ok'.list_in a d)
        ];
        items_in = λ a d. elim (Bool-cases (a == q)) [
          | inl e ↦ rw e (unfold new_ats in whole (h.next_at + n))
          | inr e ↦ rw e (ok'.items_in a d)
        ];
      }

  module _ (base n q : ℕ) (h : Heap l) (ok : IsValid v h) (c : q < h.next_list)
      (w : base + n ≤ h.next_at) where
    within : h.next_at + n ≤ (allotted q n h).next_at
    within = unfold new_ats in whole (h.next_at + n)

    slice-lists :
        (a : ℕ)
        → (copy_slice l (some (base, n)) q h).lists a
          ≡ (if a == q then record (h.lists q) { items = some (h.next_at, n) } else h.lists a)
    unfolding copy_slice
    slice-lists a =
        ap (λ f. f a) (copy_items-lists v deep base h.next_at n (allotted q n h))
        ∙ allotted-lists q n h a

    slice-reads :
        (m : l.ListMeta)
        → v.IsInList h.store m
        → v.read_list (copy_slice l (some (base, n)) q h).store m ≡ v.read_list h.store m
    unfolding copy_slice
    slice-reads m i =
        copy_items-reads v deep base h.next_at n (allotted q n h) m (allotted-IsValid q n h ok c) w
          within (unfold new_ats in i)
        ∙ unfold new_ats in refl

    slice-value :
        (a : ℕ) → a < h.next_at → value v (copy_slice l (some (base, n)) q h) a ≡ value v h a
    unfolding copy_slice
    slice-value a d =
        copy_items-others v deep base h.next_at n (allotted q n h) (allotted-IsValid q n h ok c) w
          within a d
        ∙ allotted-value q n h a d

    slice-items : items_at v (copy_slice l (some (base, n)) q h) h.next_at n ≡ items_at v h base n
    unfolding copy_slice
    slice-items =
        copy_items-copied v deep base h.next_at n (allotted q n h) (allotted-IsValid q n h ok c) w
          within
        ∙ items_same v h (allotted q n h) base n (λ a x y. allotted-value q n h a (omega arith))

    pub slice-copied :
        list_value v (copy_slice l (some (base, n)) q h) q
        ≡ record (list_value v h q) { items = some (items_at v h base n) }
    unfolding list_value
    slice-copied =
        rw (slice-lists q, eq_self q)
          (λ i. record (list_value v h q) {
            resource_version = slice-reads (h.lists q).meta (ok.list_in q c) i;
            items = some (slice-items i);
          })

    pub slice-others :
        (a : ℕ)
        → a < h.next_list
        → a ≢ q
        → list_value v (copy_slice l (some (base, n)) q h) a ≡ list_value v h a
    unfolding list_value
    slice-others a d ne =
        rw (slice-lists a, ne_test a q ne)
          (λ i. record (list_value v h a) {
            resource_version = slice-reads (h.lists a).meta (ok.list_in a d) i;
            items =
                items_of-same v h (copy_slice l (some (base, n)) q h) (h.lists a).items h.next_at
                  (ok.items_in a d) slice-value i;
          })
