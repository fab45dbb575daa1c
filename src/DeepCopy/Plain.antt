-- ===== src/DeepCopy/Plain.antt =====
-- zz_generated.deepcopy.go: the copies of AtSpec and AtStatus, which hold no pointers.
use kubernetes_programming.Prelude.{
  ℕ, ◌+◌, ◌<◌, ◌==◌, Option, none, some, [], ◌≡◌, refl, arith, if◌then◌else◌,
}
use kubernetes_programming.Api.{AtSpec, AtStatus}

-- The structs of one type in memory; those from `next` on are free.
pub record Cells (A : Type 0) : Type 0 where
  pub next : ℕ
  pub cell : ℕ → A

module _ {A : Type 0} where
  abbrev pub assign : ℕ → A → Cells A → Cells A
  assign q x h = record h { cell = λ a. if a == q then x else h.cell a }

  -- `*out = *in`
  abbrev pub copy_into : ℕ → ℕ → Cells A → Cells A
  copy_into p q h = assign q (h.cell p) h

  -- `new` with the zero value, and the copy into it, unless the receiver is nil.
  abbrev pub copy_of : A → Option ℕ → Cells A → Option ℕ × Cells A
  copy_of zero none h = (none, h)
  copy_of zero (some p) h =
      (some h.next, copy_into p h.next (assign h.next zero (record h { next = h.next + 1 })))

  pub copy_of_lem :
      (zero : A) (p : ℕ) (h : Cells A)
      → p < h.next
      → let (q, h') = copy_of zero (some p) h in
        (q ≡ some h.next)
        × (h'.cell h.next ≡ h.cell p)
        × ((a : ℕ) → a < h.next → h'.cell a ≡ h.cell a)
  copy_of_lem zero p h b = (refl, ground arith, λ a c. ground arith)

unfoldable pub spec_deep_copy_into : ℕ → ℕ → Cells AtSpec → Cells AtSpec
spec_deep_copy_into p q h = copy_into p q h

unfoldable pub spec_deep_copy : Option ℕ → Cells AtSpec → Option ℕ × Cells AtSpec
spec_deep_copy p h = copy_of (record { schedule = []; command = [] }) p h

unfoldable pub status_deep_copy_into : ℕ → ℕ → Cells AtStatus → Cells AtStatus
status_deep_copy_into p q h = copy_into p q h

unfoldable pub status_deep_copy : Option ℕ → Cells AtStatus → Option ℕ × Cells AtStatus
status_deep_copy p h = copy_of (record { phase = [] }) p h
