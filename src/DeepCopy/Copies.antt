-- ===== src/DeepCopy/Copies.antt =====
-- DeepCopy of an At.
use kubernetes_programming.Prelude.{
  Bytes, ℕ, ◌+◌, ◌<◌, ◌≤◌, ◌==◌, ◌&&◌, ltb, leb, false, Option, none, some, ◌≡◌, ◌≢◌, refl, ap, ◌∙◌,
  arith, if◌then◌else◌, Bool-cases, inl, inr,
}
use kubernetes_programming.Api.{with_phase}
use kubernetes_programming.DeepCopy.{Library, Heap, set_at, deep_copy_into, new_ats, deep_copy}
use kubernetes_programming.DeepCopy.Into.{
  View, IsDeep, value, IsWithin, IsValid, into-IsApart, into-value, into-IsValid, eq_self, ne_test,
}

-- instance.Status.Phase = phase
pub set_phase_of : (l : Library) → ℕ → Bytes → Heap l → Heap l
set_phase_of l q phase h = set_at l q (record (h.ats q) { status = record { phase = phase } }) h

module _ {l : Library} (v : View l) (deep : IsDeep v) where
  pub new_ats-value :
      (n : ℕ) (h : Heap l) (a : ℕ) → a < h.next_at → value v (new_ats l n h) a ≡ value v h a
  unfolding value new_ats
  new_ats-value n h a c = rw (before h.next_at a n c) refl
    where
      before : (k a n : ℕ) → a < k → (leb k a && ltb a (k + n)) ≡ false
      before k a n c = ground arith

  IsWithin-le : (o : Option (ℕ × ℕ)) (a b : ℕ) → a ≤ b → IsWithin v o a → IsWithin v o b
  IsWithin-le none a b c i = tt
  IsWithin-le (some (base, n)) a b c i = omega arith

  pub new_ats-IsValid : (n : ℕ) (h : Heap l) → IsValid v h → IsValid v (new_ats l n h)
  unfolding new_ats
  new_ats-IsValid n h ok = record {
    at_in = λ a c. elim (Bool-cases (leb h.next_at a && ltb a (h.next_at + n))) [
      | inl e ↦ rw e (deep.zero_in h.store)
      | inr e ↦ rw e (ok.at_in a (outside h.next_at a n e c))
    ];
    list_in = ok.list_in;
    items_in = λ a c.
        IsWithin-le (h.lists a).items h.next_at (h.next_at + n) (omega arith) (ok.items_in a c);
  }
    where
      outside : (k a n : ℕ) → (leb k a && ltb a (k + n)) ≡ false → a < k + n → a < k
      outside k a n e c = ground arith

  new_ats-next : (n : ℕ) (h : Heap l) (a : ℕ) → a < h.next_at + n → a < (new_ats l n h).next_at
  unfolding new_ats
  new_ats-next n h a c = c

  fresh_copy :
      (p a : ℕ) (h : Heap l)
      → IsValid v h
      → p < h.next_at
      → a < h.next_at
      → (value v (deep_copy_into l p h.next_at (new_ats l 1 h)) h.next_at ≡ value v h p)
        × (value v (deep_copy_into l p h.next_at (new_ats l 1 h)) a ≡ value v h a)
        × IsValid v (deep_copy_into l p h.next_at (new_ats l 1 h))
  fresh_copy p a h ok b c =
      let ok' = new_ats-IsValid 1 h ok in
      let b' = new_ats-next 1 h p (omega arith) in
      let n : p ≢ h.next_at = λ e. omega arith in
      (
        into-value v deep p h.next_at (new_ats l 1 h) ok' n b' h.next_at
              (new_ats-next 1 h h.next_at (omega arith))
            ∙ rw (eq_self h.next_at) (new_ats-value 1 h p b),
        into-value v deep p h.next_at (new_ats l 1 h) ok' n b' a (new_ats-next 1 h a (omega arith))
            ∙ rw (ne_test a h.next_at (λ e. omega arith)) (new_ats-value 1 h a c),
        into-IsValid v deep p h.next_at (new_ats l 1 h) ok' n b',
      )

  fresh_apart :
      (p : ℕ) (h : Heap l)
      → p < h.next_at
      → v.IsApart h.store ((deep_copy_into l p h.next_at (new_ats l 1 h)).ats h.next_at).meta
  fresh_apart p h b =
      let n : p ≢ h.next_at = λ e. omega arith in
      unfold new_ats in into-IsApart v deep p h.next_at (new_ats l 1 h) n

  -- DeepCopy of an At that is allocated returns a pointer that was free. The At there has the value of
  -- the original and shares no map or slice with anything that was there before, its metadata being
  -- copied too. Every At that was allocated before keeps its value, whatever memory they share within
  -- their metadata; and memory stays valid.
  pub deep_copy_lem :
      (p a : ℕ) (h : Heap l)
      → IsValid v h
      → p < h.next_at
      → a < h.next_at
      → let (r, h') = deep_copy l (some p) h in
        (r ≡ some h.next_at)
        × (value v h' h.next_at ≡ value v h p)
        × (value v h' a ≡ value v h a)
        × v.IsApart h.store (h'.ats h.next_at).meta
        × IsValid v h'
  unfolding deep_copy
  deep_copy_lem p a h ok b c =
      let (x, y, z) = fresh_copy p a h ok b c in (refl, x, y, fresh_apart p h b, z)

  set_phase_of-value :
      (q : ℕ) (phase : Bytes) (h : Heap l) (a : ℕ)
      → value v (set_phase_of l q phase h) a
        ≡ (if a == q then with_phase (value v h q) phase else value v h a)
  unfolding value set_phase_of
  set_phase_of-value q phase h a = elim (Bool-cases (a == q)) [
    | inl e ↦ rw e refl
    | inr e ↦ rw e refl
  ]

  -- What syncHandler does with the lister's object: DeepCopy gives it another pointer, the phase that
  -- it sets through that pointer is not seen by the lister, and but for the phase what the pointer
  -- leads to is the lister's object.
  pub copy_apart :
      (p : ℕ) (phase : Bytes) (h : Heap l)
      → IsValid v h
      → p < h.next_at
      → let (r, copied) = deep_copy l (some p) h in
        (q : ℕ) × (r ≡ some q)
        × (q ≢ p)
        × (value v (set_phase_of l q phase copied) p ≡ value v h p)
        × (value v (set_phase_of l q phase copied) q ≡ with_phase (value v h p) phase)
  copy_apart p phase h ok b =
      let (r, copied, kept, _, _) = deep_copy_lem p p h ok b b in
      (
        h.next_at,
        r,
        λ e. omega (arith, b, e),
        set_phase_of-value h.next_at phase (deep_copy l (some p) h).1 p
            ∙ rw (ne_test p h.next_at (λ e. omega arith)) kept,
        set_phase_of-value h.next_at phase (deep_copy l (some p) h).1 h.next_at
            ∙ rw (eq_self h.next_at) (ap (λ x. with_phase x phase) copied),
      )
