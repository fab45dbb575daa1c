-- ===== src/DeepCopy/Examples.antt =====
-- Copies over a library whose ObjectMeta is one reference, nil or into a store.
use kubernetes_programming.Prelude.{
  Bytes, codes, ℕ, ◌+◌, ◌<◌, ◌==◌, [], Option, none, some, ◌≡◌, ◌≢◌, ◌≤◌, refl, arith,
  if◌then◌else◌,
}
use kubernetes_programming.Api.{TypeMeta, ObjectMeta, no_meta, with_phase, phase_running}
use kubernetes_programming.DeepCopy.{Library, AtCell, Heap, deep_copy, list_deep_copy}
use kubernetes_programming.DeepCopy.Into.{View, IsDeep, value, IsValid, eq_self, ne_test}
use kubernetes_programming.DeepCopy.Copies.{set_phase_of, deep_copy_lem, copy_apart}
use kubernetes_programming.DeepCopy.Lists.{list_value}
use kubernetes_programming.DeepCopy.Separate.{ItemsApart}
use kubernetes_programming.DeepCopy.AtLists.{list_deep_copy_lem}

record Cells : Type 0 where
  next : ℕ
  cells : ℕ → ObjectMeta

abbrev read_at : Cells → Option ℕ → ObjectMeta
read_at s none = no_meta
read_at s (some a) = s.cells a

abbrev Allocated : Cells → Option ℕ → Type 0
Allocated s none = Unit {0}
Allocated s (some a) = a < s.next

-- Not a cell of the store.
abbrev New : Cells → Option ℕ → Type 0
New s none = Unit {0}
New s (some a) = s.next ≤ a

abbrev copied_to : Option ℕ → Cells → Option ℕ × Cells
copied_to none s = (none, s)
copied_to (some a) s = (
  some s.next,
  record { next = s.next + 1; cells = λ b. if b == s.next then s.cells a else s.cells b },
)

abbrev lib : Library
lib = record {
  Store = Cells;
  Meta = Option ℕ;
  ListMeta = Bytes;
  zero_meta = none;
  zero_list_meta = [];
  copy_meta = copied_to;
  copy_list_meta = λ m s. (m, s);
}

abbrev view : View lib
view = record {
  read = read_at;
  read_list = λ s m. m;
  IsIn = Allocated;
  IsInList = λ s m. Unit {0};
  IsApart = New;
  IsApartList = λ s m. Unit {0};
}

copied_to-read :
    (m : Option ℕ) (s : Cells)
    → Allocated s m
    → read_at (copied_to m s).1 (copied_to m s).0 ≡ read_at s m
copied_to-read none s i = refl
copied_to-read (some a) s i = rw (eq_self s.next) refl

copied_to-Allocated :
    (m : Option ℕ) (s : Cells) → Allocated s m → Allocated (copied_to m s).1 (copied_to m s).0
copied_to-Allocated none s i = tt
copied_to-Allocated (some a) s i = omega arith

copied_to-keeps :
    (m n : Option ℕ) (s : Cells) → Allocated s n → read_at (copied_to m s).1 n ≡ read_at s n
copied_to-keeps none n s i = refl
copied_to-keeps (some a) none s i = refl
copied_to-keeps (some a) (some b) s i = rw (ne_test b s.next (λ e. omega arith)) refl

copied_to-stays : (m n : Option ℕ) (s : Cells) → Allocated s n → Allocated (copied_to m s).1 n
copied_to-stays none n s i = i
copied_to-stays (some a) none s i = tt
copied_to-stays (some a) (some b) s i = omega arith

copied_to-New : (m : Option ℕ) (s : Cells) → New s (copied_to m s).0
copied_to-New none s = tt
copied_to-New (some a) s = omega arith

New-before : (m c : Option ℕ) (s : Cells) → New (copied_to m s).1 c → New s c
New-before none c s i = i
New-before (some a) none s i = tt
New-before (some a) (some b) s i = omega arith

lib-IsDeep : IsDeep view
lib-IsDeep = record {
  copied = copied_to-read;
  copy_in = copied_to-Allocated;
  keeps = λ m s. record {
    reads = λ n i. copied_to-keeps m n s i;
    stays = λ n i. copied_to-stays m n s i;
    reads_list = λ n i. refl;
    stays_list = λ n i. tt;
  };
  copied_list = λ m s i. refl;
  copy_in_list = λ m s i. tt;
  keeps_list = λ m s. record {
    reads = λ n i. refl;
    stays = λ n i. i;
    reads_list = λ n i. refl;
    stays_list = λ n i. tt;
  };
  apart = copied_to-New;
  apart_list = λ m s. tt;
  apart_before = New-before;
  apart_before_list = λ m c s i. i;
  zero_in = λ s. tt;
  zero_in_list = λ s. tt;
}

abbrev kind_at : TypeMeta
kind_at = record { kind = codes "At"; api_version = codes "v" }

abbrev cell : AtCell lib
cell = record {
  type_meta = kind_at;
  meta = some 0;
  spec = record { schedule = codes "2019-07-03T02:00:00Z"; command = codes "echo hi" };
  status = record { phase = [] };
}

-- One At, and a list that has it as its item.
abbrev heap : Heap lib
heap = record {
  store = record { next = 1; cells = λ a. record no_meta { name = codes "a" } };
  next_at = 1;
  ats = λ a. cell;
  next_list = 1;
  lists = λ a. record { type_meta = kind_at; meta = codes "7"; items = some (0, 1) };
}

heap-IsValid : IsValid view heap
heap-IsValid = record {
  at_in = λ a c. omega arith;
  list_in = λ a c. tt;
  items_in = λ a c. omega arith;
}

deep_copy_lem_example :
    ((deep_copy lib (some 0) heap).0 ≡ some 1)
    × (value view (deep_copy lib (some 0) heap).1 1 ≡ value view heap 0)
    × (value view (deep_copy lib (some 0) heap).1 0 ≡ value view heap 0)
    × New heap.store ((deep_copy lib (some 0) heap).1.ats 1).meta
    × IsValid view (deep_copy lib (some 0) heap).1
deep_copy_lem_example =
    deep_copy_lem view lib-IsDeep 0 0 heap heap-IsValid (omega arith) (omega arith)

copy_apart_example :
    let (r, copied) = deep_copy lib (some 0) heap in
    (q : ℕ) × (r ≡ some q)
    × (q ≢ 0)
    × (value view (set_phase_of lib q phase_running copied) 0 ≡ value view heap 0)
    × (value view (set_phase_of lib q phase_running copied) q
        ≡ with_phase (value view heap 0) phase_running)
copy_apart_example = copy_apart view lib-IsDeep 0 phase_running heap heap-IsValid (omega arith)

list_deep_copy_lem_example :
    ((list_deep_copy lib (some 0) heap).0 ≡ some 1)
    × (list_value view (list_deep_copy lib (some 0) heap).1 1 ≡ list_value view heap 0)
    × (list_value view (list_deep_copy lib (some 0) heap).1 0 ≡ list_value view heap 0)
    × Unit {0}
    × ItemsApart view heap.store 1
        (list_deep_copy lib (some 0) heap).1
        ((list_deep_copy lib (some 0) heap).1.lists 1).items
list_deep_copy_lem_example =
    list_deep_copy_lem view lib-IsDeep 0 0 heap heap-IsValid (omega arith) (omega arith)
