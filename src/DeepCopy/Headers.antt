-- ===== src/DeepCopy/Headers.antt =====
-- What copying the fields of an AtList does, up to its items.
use kubernetes_programming.Prelude.{
  ℕ, ◌<◌, ◌==◌, ◌≡◌, ◌≢◌, refl, arith, if◌then◌else◌, Bool-cases, inl, inr,
}
use kubernetes_programming.DeepCopy.{Library, ListCell, Heap, copy_header}
use kubernetes_programming.DeepCopy.Into.{
  View, IsDeep, Keeps, value, IsWithin, IsValid, eq_self, ne_test,
}

abbrev pub copied_header : {l : Library} → ListCell l → l.Store → ListCell l
copied_header {l} c s = record c { meta = (l.copy_list_meta c.meta s).0 }

pub header-lists :
    {l : Library} (p q : ℕ) (h : Heap l)
    → p ≢ q
    → (a : ℕ)
    → (copy_header l p q h).lists a
      ≡ (if a == q then copied_header (h.lists p) h.store else h.lists a)
unfolding copy_header
header-lists p q h n a = elim (Bool-cases (a == q)) [
  | inl e ↦ rw (eq_self q, ne_test p q n, e) refl
  | inr e ↦ rw (eq_self q, ne_test p q n, e) refl
]

pub header-store :
    {l : Library} (p q : ℕ) (h : Heap l)
    → p ≢ q
    → (copy_header l p q h).store ≡ (l.copy_list_meta (h.lists p).meta h.store).1
unfolding copy_header
header-store p q h n = ground arith

header-ats : {l : Library} (p q : ℕ) (h : Heap l) → (copy_header l p q h).ats ≡ h.ats
unfolding copy_header
header-ats p q h = refl

module _ {l : Library} (v : View l) (deep : IsDeep v) (p q : ℕ) (h : Heap l) (ok : IsValid v h)
    (n : p ≢ q) (b : p < h.next_list) where
  abbrev kept : Keeps v h.store (l.copy_list_meta (h.lists p).meta h.store).1
  kept = deep.keeps_list (h.lists p).meta h.store

  pub header-value : (a : ℕ) → a < h.next_at → value v (copy_header l p q h) a ≡ value v h a
  unfolding value
  header-value a c =
      rw (header-ats p q h, header-store p q h n)
        (λ i. record (value v h a) { meta = kept.reads (h.ats a).meta (ok.at_in a c) i })

  pub header-copied :
      v.read_list (copy_header l p q h).store (copied_header (h.lists p) h.store).meta
      ≡ v.read_list h.store (h.lists p).meta
  header-copied =
      rw (header-store p q h n) (deep.copied_list (h.lists p).meta h.store (ok.list_in p b))

  pub header-reads :
      (m : l.ListMeta)
      → v.IsInList h.store m
      → v.read_list (copy_header l p q h).store m ≡ v.read_list h.store m
  header-reads m i = rw (header-store p q h n) (kept.reads_list m i)

  header-IsIn :
      (a : ℕ)
      → a < h.next_at
      → v.IsIn (copy_header l p q h).store ((copy_header l p q h).ats a).meta
  header-IsIn a c =
      rw (header-ats p q h, header-store p q h n) (kept.stays (h.ats a).meta (ok.at_in a c))

  header-IsInList :
      (a : ℕ)
      → a < h.next_list
      → v.IsInList (copy_header l p q h).store ((copy_header l p q h).lists a).meta
  header-IsInList a c = elim (Bool-cases (a == q)) [
    | inl e ↦
        rw (header-lists p q h n a, header-store p q h n, e)
          (deep.copy_in_list (h.lists p).meta h.store (ok.list_in p b))
    | inr e ↦
        rw (header-lists p q h n a, header-store p q h n, e)
          (kept.stays_list (h.lists a).meta (ok.list_in a c))
  ]

  header-IsWithin :
      (a : ℕ) → a < h.next_list → IsWithin v ((copy_header l p q h).lists a).items h.next_at
  header-IsWithin a c = elim (Bool-cases (a == q)) [
    | inl e ↦ rw (header-lists p q h n a, e) (ok.items_in p b)
    | inr e ↦ rw (header-lists p q h n a, e) (ok.items_in a c)
  ]

  pub header-IsValid : IsValid v (copy_header l p q h)
  header-IsValid = record {
    at_in = λ a c. header-IsIn a (unfold copy_header in c);
    list_in = λ a c. header-IsInList a (unfold copy_header in c);
    items_in = λ a c. into_next a (header-IsWithin a (unfold copy_header in c));
  }
    where
      into_next :
          (a : ℕ)
          → IsWithin v ((copy_header l p q h).lists a).items h.next_at
          → IsWithin v ((copy_header l p q h).lists a).items (copy_header l p q h).next_at
      into_next a w = unfold copy_header in w
