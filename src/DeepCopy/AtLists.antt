-- ===== src/DeepCopy/AtLists.antt =====
-- DeepCopy of an AtList: the copy, and what was there before.
use kubernetes_programming.Prelude.{
  ℕ, ◌+◌, ◌<◌, ◌==◌, Option, none, some, ◌≡◌, ◌≢◌, refl, ◌∙◌, arith, Bool-cases, inl, inr, false,
}
use kubernetes_programming.DeepCopy.{
  Library, Heap, copy_slice, copy_header, list_deep_copy_into, new_list, list_deep_copy,
}
use kubernetes_programming.DeepCopy.Into.{View, IsDeep, value, IsWithin, IsValid, eq_self, ne_test}
use kubernetes_programming.DeepCopy.Headers.{
  header-lists, header-copied, header-reads, header-value, header-IsValid,
}
use kubernetes_programming.DeepCopy.Lists.{items_at, items_of-same, list_value}
use kubernetes_programming.DeepCopy.Separate.{ItemsApart, into-separate}
use kubernetes_programming.DeepCopy.Slices.{slice-copied, slice-others}

module _ {l : Library} (v : View l) (deep : IsDeep v) where
  same_items :
      (h : Heap l) (q base len : ℕ)
      → (h.lists q).items ≡ some (base, len)
      → record (list_value v h q) { items = some (items_at v h base len) } ≡ list_value v h q
  unfolding list_value
  same_items h q base len e = rw e refl

  -- The whole of the copy, into an allocated list.
  module _ (p q : ℕ) (h : Heap l) (ok : IsValid v h) (n : p ≢ q) (b : p < h.next_list)
      (c : q < h.next_list) where
    abbrev head : Heap l
    head = copy_header l p q h

    head_ok : IsValid v (copy_header l p q h)
    head_ok = header-IsValid v deep p q h ok n b

    head-copied : list_value v (copy_header l p q h) q ≡ list_value v h p
    unfolding list_value
    head-copied =
        rw (header-lists p q h n q, eq_self q)
          (λ i. record (list_value v h p) {
            resource_version = header-copied v deep p q h ok n b i;
            items =
                items_of-same v h (copy_header l p q h) (h.lists p).items h.next_at
                  (ok.items_in p b) (header-value v deep p q h ok n b) i;
          })

    head-others :
        (a : ℕ) → a < h.next_list → a ≢ q → list_value v (copy_header l p q h) a ≡ list_value v h a
    unfolding list_value
    head-others a d ne =
        rw (header-lists p q h n a, ne_test a q ne)
          (λ i. record (list_value v h a) {
            resource_version = header-reads v deep p q h ok n b (h.lists a).meta (ok.list_in a d) i;
            items =
                items_of-same v h (copy_header l p q h) (h.lists a).items h.next_at
                  (ok.items_in a d) (header-value v deep p q h ok n b) i;
          })

    head-next : (a : ℕ) → a < h.next_list → a < (copy_header l p q h).next_list
    head-next a d = unfold copy_header in d

    -- The items of the header, by whether they are nil.
    sliced-copied :
        (o : Option (ℕ × ℕ))
        → ((copy_header l p q h).lists q).items ≡ o
        → IsWithin v o (copy_header l p q h).next_at
        → list_value v (copy_slice l o q (copy_header l p q h)) q
          ≡ list_value v (copy_header l p q h) q
    unfolding copy_slice
    sliced-copied none e w = refl
    sliced-copied (some (base, len)) e w =
        slice-copied v deep base len q (copy_header l p q h) head_ok (head-next q c) w
        ∙ same_items (copy_header l p q h) q base len e

    sliced-others :
        (o : Option (ℕ × ℕ))
        → IsWithin v o (copy_header l p q h).next_at
        → (a : ℕ) → a < h.next_list
        → a ≢ q
        → list_value v (copy_slice l o q (copy_header l p q h)) a
          ≡ list_value v (copy_header l p q h) a
    unfolding copy_slice
    sliced-others none w a d ne = refl
    sliced-others (some (base, len)) w a d ne =
        slice-others v deep base len q (copy_header l p q h) head_ok (head-next q c) w a
          (head-next a d) ne

    shared_items : ((copy_header l p q h).lists q).items ≡ ((copy_header l p q h).lists p).items
    shared_items =
        rw (header-lists p q h n q, header-lists p q h n p, eq_self q, ne_test p q n) refl

    items-IsWithin : IsWithin v ((copy_header l p q h).lists p).items (copy_header l p q h).next_at
    items-IsWithin = head_ok.items_in p (head-next p b)

    pub into-copied : list_value v (list_deep_copy_into l p q h) q ≡ list_value v h p
    unfolding list_deep_copy_into
    into-copied =
        sliced-copied ((copy_header l p q h).lists p).items shared_items items-IsWithin
        ∙ head-copied

    pub into-others :
        (a : ℕ)
        → a < h.next_list
        → a ≢ q
        → list_value v (list_deep_copy_into l p q h) a ≡ list_value v h a
    unfolding list_deep_copy_into
    into-others a d ne =
        sliced-others ((copy_header l p q h).lists p).items items-IsWithin a d ne
        ∙ head-others a d ne

  new_list-IsValid : (h : Heap l) → IsValid v h → IsValid v (new_list l h)
  unfolding new_list
  new_list-IsValid h ok = record {
    at_in = ok.at_in;
    list_in = λ a d. elim (Bool-cases (a == h.next_list)) [
      | inl e ↦ rw e (deep.zero_in_list h.store)
      | inr e ↦ rw e (ok.list_in a (before a h.next_list e d))
    ];
    items_in = λ a d. elim (Bool-cases (a == h.next_list)) [
      | inl e ↦ rw e tt
      | inr e ↦ rw e (ok.items_in a (before a h.next_list e d))
    ];
  }
    where
      before : (a k : ℕ) → (a == k) ≡ false → a < k + 1 → a < k
      before a k e d = ground arith

  new_list-value :
      (h : Heap l) (a : ℕ)
      → IsValid v h
      → a < h.next_list
      → list_value v (new_list l h) a ≡ list_value v h a
  unfolding new_list list_value value
  new_list-value h a ok d = rw (ne_test a h.next_list (λ e. omega arith)) (λ i.
      record (list_value v h a) {
        items =
            items_of-same v h (new_list l h) (h.lists a).items h.next_at (ok.items_in a d)
              (λ x y. refl) i;
      })

  new_list-next : (h : Heap l) (a : ℕ) → a < h.next_list + 1 → a < (new_list l h).next_list
  unfolding new_list
  new_list-next h a d = d

  list_apart :
      (p : ℕ) (h : Heap l)
      → IsValid v (new_list l h)
      → p < h.next_list
      → let h' = list_deep_copy_into l p h.next_list (new_list l h) in
        v.IsApartList h.store (h'.lists h.next_list).meta
        × ItemsApart v h.store h.next_at h' (h'.lists h.next_list).items
  list_apart p h ok b =
      let n : p ≢ h.next_list = λ e. omega arith in
      let w = ok.items_in p (new_list-next h p (omega arith)) in
      unfold new_list in into-separate v deep p h.next_list (new_list l h) n w

  -- DeepCopy of an AtList that is allocated returns a pointer that was free. The list there has the
  -- value of the original, the Ats among its items included, and every list that was allocated before
  -- keeps its value. A nil slice of items stays nil. The copy shares nothing with what was there
  -- before: its metadata and that of each item have no map or slice of the store before, and its items
  -- are in an array that was free.
  pub list_deep_copy_lem :
      (p a : ℕ) (h : Heap l)
      → IsValid v h
      → p < h.next_list
      → a < h.next_list
      → let (r, h') = list_deep_copy l (some p) h in
        (r ≡ some h.next_list)
        × (list_value v h' h.next_list ≡ list_value v h p)
        × (list_value v h' a ≡ list_value v h a)
        × v.IsApartList h.store (h'.lists h.next_list).meta
        × ItemsApart v h.store h.next_at h' (h'.lists h.next_list).items
  unfolding list_deep_copy
  list_deep_copy_lem p a h ok b c =
      let ok' = new_list-IsValid h ok in
      (
        refl,
        into-copied p h.next_list (new_list l h) ok' (λ e. omega arith)
              (new_list-next h p (omega arith)) (new_list-next h h.next_list (omega arith))
            ∙ new_list-value h p ok b,
        into-others p h.next_list (new_list l h) ok' (λ e. omega arith)
              (new_list-next h p (omega arith)) (new_list-next h h.next_list (omega arith)) a
              (new_list-next h a (omega arith)) (λ e. omega arith)
            ∙ new_list-value h a ok c,
        (list_apart p h ok' b).0,
        (list_apart p h ok' b).1,
      )
