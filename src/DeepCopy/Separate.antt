-- ===== src/DeepCopy/Separate.antt =====
-- A copied AtList shares nothing with what was there before.
use kubernetes_programming.Prelude.{
  ℕ, zero, suc, ◌+◌, ◌<◌, ◌≤◌, Option, none, some, ◌≡◌, ◌≢◌, refl, ◌∙◌, subst, sym, arith,
}
use kubernetes_programming.DeepCopy.{
  Library, Heap, deep_copy_into, new_ats, set_list, copy_items, copy_slice, copy_header,
  list_deep_copy_into,
}
use kubernetes_programming.DeepCopy.Into.{
  View, IsDeep, IsWithin, into-ats, into-store, into-IsApart, eq_self, ne_test,
}
use kubernetes_programming.DeepCopy.Headers.{header-lists, header-store}
use kubernetes_programming.DeepCopy.Lists.{copy_items-lists}

module _ {l : Library} (v : View l) where
  -- So many Ats from an address on have metadata apart from a store.
  abbrev pub AllApart : l.Store → Heap l → ℕ → ℕ → Type 0
  AllApart s h q zero = Unit
  AllApart s h q (suc n) = v.IsApart s (h.ats q).meta × AllApart s h (q + 1) n

  -- The items are in an array that was free below the given address, each apart from the store.
  abbrev pub ItemsApart : l.Store → ℕ → Heap l → Option (ℕ × ℕ) → Type 0
  ItemsApart s k h none = Unit
  ItemsApart s k h (some (base, n)) = (k ≤ base) × AllApart s h base n

module _ {l : Library} (v : View l) (deep : IsDeep v) where
  copy_items-before :
      (p q n : ℕ) (h : Heap l) (a : ℕ) → p + n ≤ q → a < q → (copy_items l p q n h).ats a ≡ h.ats a
  unfolding copy_items
  copy_items-before p q zero h a c d = refl
  copy_items-before p q (suc n) h a c d =
      copy_items-before (p + 1) (q + 1) n (deep_copy_into l p q h) a (omega arith) (omega arith)
      ∙ into-ats p q h (λ e. omega arith) a
      ∙ rw (ne_test a q (λ e. omega arith)) refl

  AllApart-earlier :
      (s s' : l.Store) (h : Heap l) (q n : ℕ)
      → ((c : l.Meta) → v.IsApart s' c → v.IsApart s c)
      → AllApart v s' h q n
      → AllApart v s h q n
  AllApart-earlier s s' h q zero f x = tt
  AllApart-earlier s s' h q (suc n) f (x, xs) =
      (f (h.ats q).meta x, AllApart-earlier s s' h (q + 1) n f xs)

  copy_items-AllApart :
      (p q n : ℕ) (h : Heap l) → p + n ≤ q → AllApart v h.store (copy_items l p q n h) q n
  unfolding copy_items
  copy_items-AllApart p q zero h c = tt
  copy_items-AllApart p q (suc n) h c =
      let n₀ : p ≢ q = λ e. omega arith in
      let h₁ = deep_copy_into l p q h in
      (
        rw (copy_items-before (p + 1) (q + 1) n h₁ q (omega arith) (omega arith))
            (into-IsApart v deep p q h n₀),
        AllApart-earlier h.store h₁.store (copy_items l (p + 1) (q + 1) n h₁) (q + 1) n
            (λ m x.
              deep.apart_before (h.ats p).meta m h.store
                (subst (λ s. v.IsApart s m) (into-store p q h n₀) x))
            (copy_items-AllApart (p + 1) (q + 1) n h₁ (omega arith)),
      )

  ItemsApart-earlier :
      (s s' : l.Store) (k : ℕ) (h : Heap l) (o : Option (ℕ × ℕ))
      → ((c : l.Meta) → v.IsApart s' c → v.IsApart s c)
      → ItemsApart v s' k h o
      → ItemsApart v s k h o
  ItemsApart-earlier s s' k h none f x = tt
  ItemsApart-earlier s s' k h (some (base, n)) f (b, xs) = (b, AllApart-earlier s s' h base n f xs)

  slice-ItemsApart :
      (o : Option (ℕ × ℕ)) (q : ℕ) (h : Heap l)
      → IsWithin v o h.next_at
      → (h.lists q).items ≡ o
      → let h' = copy_slice l o q h in
        ItemsApart v h.store h.next_at h' (h'.lists q).items
        × ((h'.lists q).meta ≡ (h.lists q).meta)
  unfolding copy_slice new_ats
  slice-ItemsApart none q h w e = (rw e tt, refl)
  slice-ItemsApart (some (base, n)) q h w e =
      let h₁ = new_ats l n h in
      let h₂ = set_list l q (record (h₁.lists q) { items = some (h.next_at, n) }) h₁ in
      rw (copy_items-lists v deep base h.next_at n h₂, eq_self q)
        ((omega arith, copy_items-AllApart base h.next_at n h₂ w), refl)

  -- What the copy of the header and of the items leave in the list `q`.
  pub into-separate :
      (p q : ℕ) (h : Heap l)
      → p ≢ q
      → IsWithin v (h.lists p).items h.next_at
      → let h' = list_deep_copy_into l p q h in
        v.IsApartList h.store (h'.lists q).meta
        × ItemsApart v h.store h.next_at h' (h'.lists q).items
  unfolding list_deep_copy_into
  into-separate p q h n w =
      let h₃ = copy_header l p q h in
      let o = (h₃.lists p).items in
      let same : o ≡ (h.lists p).items = rw (header-lists p q h n p, ne_test p q n) refl in
      let shared : (h₃.lists q).items ≡ o =
        rw (header-lists p q h n p, header-lists p q h n q, eq_self q, ne_test p q n) refl in
      let within : IsWithin v o h.next_at = subst (λ x. IsWithin v x h.next_at) (sym same) w in
      let (items, meta) = slice-ItemsApart o q h₃ (unfold copy_header in within) shared in
      (
        rw (meta, header-lists p q h n q, eq_self q) (deep.apart_list (h.lists p).meta h.store),
        ItemsApart-earlier h.store h₃.store h.next_at (copy_slice l o q h₃)
            ((copy_slice l o q h₃).lists q).items
            (λ m x.
              deep.apart_before_list (h.lists p).meta m h.store
                (subst (λ s. v.IsApart s m) (header-store p q h n) x))
            (unfold copy_header in items),
      )
