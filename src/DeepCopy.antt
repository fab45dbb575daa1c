-- ===== src/DeepCopy.antt =====
-- pkg/apis/cnat/v1alpha1/zz_generated.deepcopy.go, and the same functions in
-- cnat-kubebuilder/api/v1alpha1/zz_generated.deepcopy.go: deep copies through pointers into a heap.
pub mod Into
pub mod Copies
pub mod Headers
pub mod Lists
pub mod Slices
pub mod AtLists
pub mod Plain
pub mod Separate
mod Examples
use kubernetes_programming.Prelude.{
  ℕ, zero, suc, ◌+◌, ◌==◌, ltb, ◌&&◌, leb, [], Option, none, some, if◌then◌else◌,
}
use kubernetes_programming.Api.{TypeMeta, AtSpec, AtStatus}

-- What the copies use of apimachinery: the structs ObjectMeta and ListMeta, whose references lead
-- into a store of their own, and what their DeepCopyInto writes.
pub record Library : Type 1 where
  pub Store : Type 0
  pub Meta : Type 0
  pub ListMeta : Type 0
  pub zero_meta : Meta
  pub zero_list_meta : ListMeta
  pub copy_meta : Meta → Store → Meta × Store
  pub copy_list_meta : ListMeta → Store → ListMeta × Store

-- The structs in memory. The items of a list are a nil slice, or the start and the length of an array
-- of Ats.
pub record AtCell (l : Library) : Type 0 where
  pub type_meta : TypeMeta
  pub meta : l.Meta
  pub spec : AtSpec
  pub status : AtStatus

pub record ListCell (l : Library) : Type 0 where
  pub type_meta : TypeMeta
  pub meta : l.ListMeta
  pub items : Option (ℕ × ℕ)

pub record Heap (l : Library) : Type 0 where
  pub store : l.Store
  pub next_at : ℕ
  pub ats : ℕ → AtCell l
  pub next_list : ℕ
  pub lists : ℕ → ListCell l

-- What a runtime.Object holds.
pub data Pointer : Type 0 where
  to_at : ℕ → Pointer
  to_list : ℕ → Pointer

module _ (l : Library) where
  abbrev pub zero_at : AtCell l
  zero_at = record {
    type_meta = record { kind = []; api_version = [] };
    meta = l.zero_meta;
    spec = record { schedule = []; command = [] };
    status = record { phase = [] };
  }

  abbrev pub zero_list : ListCell l
  zero_list = record {
    type_meta = record { kind = []; api_version = [] };
    meta = l.zero_list_meta;
    items = none;
  }

  abbrev pub set_at : ℕ → AtCell l → Heap l → Heap l
  set_at q c h = record h { ats = λ a. if a == q then c else h.ats a }

  abbrev pub set_list : ℕ → ListCell l → Heap l → Heap l
  set_list q c h = record h { lists = λ a. if a == q then c else h.lists a }

  -- The assignments of (*At).DeepCopyInto, one by one.
  pub deep_copy_into : ℕ → ℕ → Heap l → Heap l
  deep_copy_into p q h =
      let h₁ = set_at q (h.ats p) h in
      let h₂ = set_at q (record (h₁.ats q) { type_meta = (h₁.ats p).type_meta }) h₁ in
      let (m, s) = l.copy_meta (h₂.ats p).meta h₂.store in
      let h₃ = set_at q (record (h₂.ats q) { meta = m }) (record h₂ { store = s }) in
      let h₄ = set_at q (record (h₃.ats q) { spec = (h₃.ats p).spec }) h₃ in
      set_at q (record (h₄.ats q) { status = (h₄.ats p).status }) h₄

  -- new(At), and make([]At, n)
  pub new_ats : ℕ → Heap l → Heap l
  new_ats n h = record h {
    next_at = h.next_at + n;
    ats = λ a. if leb h.next_at a && ltb a (h.next_at + n) then zero_at else h.ats a;
  }

  unfoldable pub deep_copy : Option ℕ → Heap l → Option ℕ × Heap l
  unfolding deep_copy_into new_ats
  deep_copy none h = (none, h)
  deep_copy (some p) h = (some h.next_at, deep_copy_into p h.next_at (new_ats 1 h))

  -- (*At).DeepCopyObject: a nil *At does not become an interface that holds nil.
  object_of : (ℕ → Pointer) → Option ℕ × Heap l → Option Pointer × Heap l
  object_of f (none, h) = (none, h)
  object_of f (some p, h) = (some (f p), h)

  pub deep_copy_object : Option ℕ → Heap l → Option Pointer × Heap l
  unfolding object_of deep_copy
  deep_copy_object p h = object_of to_at (deep_copy p h)

  -- The loop over the items, from the address `p` to the address `q`.
  pub copy_items : ℕ → ℕ → ℕ → Heap l → Heap l
  unfolding deep_copy_into
  copy_items p q zero h = h
  copy_items p q (suc n) h = copy_items (p + 1) (q + 1) n (deep_copy_into p q h)

  pub copy_slice : Option (ℕ × ℕ) → ℕ → Heap l → Heap l
  unfolding new_ats copy_items
  copy_slice none q h = h
  copy_slice (some (base, n)) q h =
      let h₁ = new_ats n h in
      copy_items base h.next_at n
        (set_list q (record (h₁.lists q) { items = some (h.next_at, n) }) h₁)

  -- (*AtList).DeepCopyInto: up to the test of the items, and the whole of it.
  pub copy_header : ℕ → ℕ → Heap l → Heap l
  copy_header p q h =
      let h₁ = set_list q (h.lists p) h in
      let h₂ = set_list q (record (h₁.lists q) { type_meta = (h₁.lists p).type_meta }) h₁ in
      let (m, s) = l.copy_list_meta (h₂.lists p).meta h₂.store in
      set_list q (record (h₂.lists q) { meta = m }) (record h₂ { store = s })

  pub list_deep_copy_into : ℕ → ℕ → Heap l → Heap l
  unfolding copy_header copy_slice
  list_deep_copy_into p q h = let h₃ = copy_header p q h in copy_slice (h₃.lists p).items q h₃

  -- new(AtList)
  pub new_list : Heap l → Heap l
  new_list h = record h {
    next_list = h.next_list + 1;
    lists = λ a. if a == h.next_list then zero_list else h.lists a;
  }

  unfoldable pub list_deep_copy : Option ℕ → Heap l → Option ℕ × Heap l
  unfolding list_deep_copy_into new_list
  list_deep_copy none h = (none, h)
  list_deep_copy (some p) h = (some h.next_list, list_deep_copy_into p h.next_list (new_list h))

  pub list_deep_copy_object : Option ℕ → Heap l → Option Pointer × Heap l
  unfolding object_of list_deep_copy
  list_deep_copy_object p h = object_of to_list (list_deep_copy p h)
