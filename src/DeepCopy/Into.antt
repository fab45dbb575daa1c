-- ===== src/DeepCopy/Into.antt =====
-- What DeepCopyInto does to the values in memory.
use kubernetes_programming.Prelude.{
  Bytes, ℕ, ◌+◌, ◌<◌, ◌≤◌, ◌==◌, true, false, Option, none, some, ◌≡◌, ◌≢◌, refl, arith,
  if◌then◌else◌, Bool-cases, inl, inr,
}
use kubernetes_programming.Api.{ObjectMeta, At}
use kubernetes_programming.DeepCopy.{Library, AtCell, Heap, deep_copy_into}

-- What can be seen of the library's structs in a store, and which of them have all their references
-- in it. A struct is apart from a store if it has no reference to a map or slice of that store.
pub record View (l : Library) : Type 1 where
  pub read : l.Store → l.Meta → ObjectMeta
  pub read_list : l.Store → l.ListMeta → Bytes
  pub IsIn : l.Store → l.Meta → Type 0
  pub IsInList : l.Store → l.ListMeta → Type 0
  pub IsApart : l.Store → l.Meta → Type 0
  pub IsApartList : l.Store → l.ListMeta → Type 0

-- Nothing that is in the first store is lost or changed in the second.
pub record Keeps {l : Library} (v : View l) (s s' : l.Store) : Type 0 where
  pub reads : (m : l.Meta) → v.IsIn s m → v.read s' m ≡ v.read s m
  pub stays : (m : l.Meta) → v.IsIn s m → v.IsIn s' m
  pub reads_list : (m : l.ListMeta) → v.IsInList s m → v.read_list s' m ≡ v.read_list s m
  pub stays_list : (m : l.ListMeta) → v.IsInList s m → v.IsInList s' m

-- The library's copies are deep: the copy reads as the original does and shares no map or slice with
-- what was there before, which is kept. So what is apart from a later store is apart from an earlier one.
pub record IsDeep {l : Library} (v : View l) : Type 0 where
  pub copied :
      (m : l.Meta) (s : l.Store)
      → v.IsIn s m
      → v.read (l.copy_meta m s).1 (l.copy_meta m s).0 ≡ v.read s m
  pub copy_in :
      (m : l.Meta) (s : l.Store) → v.IsIn s m → v.IsIn (l.copy_meta m s).1 (l.copy_meta m s).0
  pub keeps : (m : l.Meta) (s : l.Store) → Keeps v s (l.copy_meta m s).1
  pub copied_list :
      (m : l.ListMeta) (s : l.Store)
      → v.IsInList s m
      → v.read_list (l.copy_list_meta m s).1 (l.copy_list_meta m s).0 ≡ v.read_list s m
  pub copy_in_list :
      (m : l.ListMeta) (s : l.Store)
      → v.IsInList s m
      → v.IsInList (l.copy_list_meta m s).1 (l.copy_list_meta m s).0
  pub keeps_list : (m : l.ListMeta) (s : l.Store) → Keeps v s (l.copy_list_meta m s).1
  pub apart : (m : l.Meta) (s : l.Store) → v.IsApart s (l.copy_meta m s).0
  pub apart_list : (m : l.ListMeta) (s : l.Store) → v.IsApartList s (l.copy_list_meta m s).0
  pub apart_before : (m c : l.Meta) (s : l.Store) → v.IsApart (l.copy_meta m s).1 c → v.IsApart s c
  pub apart_before_list :
      (m : l.ListMeta) (c : l.Meta) (s : l.Store)
      → v.IsApart (l.copy_list_meta m s).1 c
      → v.IsApart s c
  pub zero_in : (s : l.Store) → v.IsIn s l.zero_meta
  pub zero_in_list : (s : l.Store) → v.IsInList s l.zero_list_meta

module _ {l : Library} (v : View l) where
  -- The At at an address, as a value.
  unfoldable pub value : Heap l → ℕ → At
  value h a = record {
    type_meta = (h.ats a).type_meta;
    meta = v.read h.store (h.ats a).meta;
    spec = (h.ats a).spec;
    status = (h.ats a).status;
  }

  abbrev pub IsWithin : Option (ℕ × ℕ) → ℕ → Type 0
  IsWithin none n = Unit {0}
  IsWithin (some (base, len)) n = base + len ≤ n

  -- Every struct that is allocated has its references in the store, and a list has its items in
  -- allocated memory.
  pub record IsValid (h : Heap l) : Type 0 where
    pub at_in : (a : ℕ) → a < h.next_at → v.IsIn h.store (h.ats a).meta
    pub list_in : (a : ℕ) → a < h.next_list → v.IsInList h.store (h.lists a).meta
    pub items_in : (a : ℕ) → a < h.next_list → IsWithin (h.lists a).items h.next_at

pub eq_self : (q : ℕ) → (q == q) ≡ true
eq_self q = ground arith

pub ne_test : (p q : ℕ) → p ≢ q → (p == q) ≡ false
ne_test p q n = ground arith

-- What is written in the end.
pub copied_cell : {l : Library} → AtCell l → l.Store → AtCell l
copied_cell {l} c s = record c { meta = (l.copy_meta c.meta s).0 }

pub into-ats :
    {l : Library} (p q : ℕ) (h : Heap l)
    → p ≢ q
    → (a : ℕ)
    → (deep_copy_into l p q h).ats a ≡ (if a == q then copied_cell (h.ats p) h.store else h.ats a)
unfolding deep_copy_into copied_cell
into-ats p q h n a = elim (Bool-cases (a == q)) [
  | inl e ↦ rw (eq_self q, ne_test p q n, e) refl
  | inr e ↦ rw (eq_self q, ne_test p q n, e) refl
]

pub into-store :
    {l : Library} (p q : ℕ) (h : Heap l)
    → p ≢ q
    → (deep_copy_into l p q h).store ≡ (l.copy_meta (h.ats p).meta h.store).1
unfolding deep_copy_into
into-store p q h n = ground arith

module _ {l : Library} (v : View l) (deep : IsDeep v) where
  pub into-value :
      (p q : ℕ) (h : Heap l)
      → IsValid v h
      → p ≢ q
      → p < h.next_at
      → (a : ℕ) → a < h.next_at
      → value v (deep_copy_into l p q h) a ≡ (if a == q then value v h p else value v h a)
  unfolding value copied_cell
  into-value p q h ok n b a c = elim (Bool-cases (a == q)) [
    | inl e ↦
        rw (into-ats p q h n a, into-store p q h n, e)
          (λ i. record (value v h p) { meta = deep.copied (h.ats p).meta h.store (ok.at_in p b) i })
    | inr e ↦
        rw (into-ats p q h n a, into-store p q h n, e)
          (λ i. record (value v h a) {
            meta = (deep.keeps (h.ats p).meta h.store).reads (h.ats a).meta (ok.at_in a c) i;
          })
  ]

  -- What is copied shares nothing with the store before.
  pub into-IsApart :
      (p q : ℕ) (h : Heap l) → p ≢ q → v.IsApart h.store ((deep_copy_into l p q h).ats q).meta
  unfolding copied_cell
  into-IsApart p q h n = rw (into-ats p q h n q, eq_self q) (deep.apart (h.ats p).meta h.store)

  into-IsIn :
      (p q : ℕ) (h : Heap l)
      → IsValid v h
      → p ≢ q
      → p < h.next_at
      → (a : ℕ) → a < h.next_at
      → v.IsIn (deep_copy_into l p q h).store ((deep_copy_into l p q h).ats a).meta
  unfolding copied_cell
  into-IsIn p q h ok n b a c = elim (Bool-cases (a == q)) [
    | inl e ↦
        rw (into-ats p q h n a, into-store p q h n, e)
          (deep.copy_in (h.ats p).meta h.store (ok.at_in p b))
    | inr e ↦
        rw (into-ats p q h n a, into-store p q h n, e)
          ((deep.keeps (h.ats p).meta h.store).stays (h.ats a).meta (ok.at_in a c))
  ]

  into-IsInList :
      (p q : ℕ) (h : Heap l)
      → IsValid v h
      → p ≢ q
      → (a : ℕ) → a < h.next_list
      → v.IsInList (deep_copy_into l p q h).store (h.lists a).meta
  into-IsInList p q h ok n a c =
      rw (into-store p q h n)
        ((deep.keeps (h.ats p).meta h.store).stays_list (h.lists a).meta (ok.list_in a c))

  pub into-IsValid :
      (p q : ℕ) (h : Heap l)
      → IsValid v h
      → p ≢ q
      → p < h.next_at
      → IsValid v (deep_copy_into l p q h)
  into-IsValid p q h ok n b = record {
    at_in = λ a c. into-IsIn p q h ok n b a (unfold deep_copy_into in c);
    list_in =
        λ a c. unfold deep_copy_into in (into-IsInList p q h ok n a (unfold deep_copy_into in c));
    items_in = λ a c. unfold deep_copy_into in (ok.items_in a c);
  }
