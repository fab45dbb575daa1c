-- ===== src/Informers/Threads/Linear.antt =====
-- Every interleaving has the effect of the calls one after the other.
use kubernetes_programming.Prelude.{
  Bytes, true, ℕ, ◌-◌, ◌≤◌, ◌<◌, List, [], ◌∷◌, ◌++◌, ◌≡◌, refl, arith, ◌∙◌, sym, ap, Bool-cases,
  inl, inr, append_assoc, append-nil,
}
use kubernetes_programming.Prelude.Maps.{is_set, put}
use kubernetes_programming.Informers.{
  InformerLib, SharedInformerFactory, start_one, start_all, start_unless, start, shutdown,
  informer_returns,
}
use kubernetes_programming.Informers.Start.{
  Call, starts, shuts_down, returns, asks, after, after_all,
}
use kubernetes_programming.Informers.Threads.{
  Place, starting, walking, added, spawned, shutting, shut, asking, collecting, leaving, Mutex,
  free, held, System, at_first, Step, lock_start, refused, walks, skips, adds, spawns, marks,
  walked, lock_shutdown, shuts, unlock_shutdown, wait, lock_informer_for, lock_wait, collects,
  unlock, done, Reach, here, next,
}
use kubernetes_programming.Informers.Threads.Quiet.{Inv, Reach-Inv, at_first-Inv}

abbrev Effect : InformerLib → Type 0
Effect l = SharedInformerFactory l × List (Bytes × l.Informer)

module _ (l : InformerLib) where
  abbrev marked : Bytes → SharedInformerFactory l → SharedInformerFactory l
  marked t f = record f { started_informers = put f.started_informers t true }

  -- The factory when the holder of the mutex has come to its Unlock, and what it launches until then.
  settle_at : Place l → SharedInformerFactory l → Effect l
  settle_at (walking rest) f = start_all l rest f
  settle_at (added t j rest) f = let r = start_all l rest (marked t f) in (r.0, (t, j) ∷ r.1)
  settle_at (spawned t j rest) f = start_all l rest (marked t f)
  settle_at _ f = (f, [])

  settle : Mutex l → SharedInformerFactory l → Effect l
  unfolding settle_at
  settle free f = (f, [])
  settle (held _ p) f = settle_at p f

  -- What the system comes to.
  outcome : System l → Effect l
  unfolding settle
  outcome s = let r = settle s.mutex s.factory in (r.0, s.launched ++ r.1)

  -- The call that takes effect in a step: Start at its test, the others at their assignment, and a
  -- return of an informer at wg.Done.
  takes_effect : {s t : System l} → Step s t → List (Call l)
  takes_effect (refused _ _) = starts ∷ []
  takes_effect (walks _ _) = starts ∷ []
  takes_effect (shuts _) = shuts_down ∷ []
  takes_effect (Step.asks {i} {t} {new_func} _) = asks t new_func ∷ []
  takes_effect (done _) = returns ∷ []
  takes_effect _ = []

  pub calls : {s t : System l} → Reach s t → List (Call l)
  unfolding takes_effect
  calls here = []
  calls (next r st) = calls r ++ takes_effect st

  abbrev one_less : SharedInformerFactory l → SharedInformerFactory l
  one_less f = record f { wg = f.wg - 1 }

  start_one-returns :
      (t : Bytes) (j : l.Informer) (f : SharedInformerFactory l)
      → 0 < f.wg
      → start_one l t j (one_less f) ≡ (one_less (start_one l t j f).0, (start_one l t j f).1)
  unfolding start_one
  start_one-returns t j f h = elim (Bool-cases (is_set f.started_informers t)) [
    | inl e ↦ rw e refl
    | inr e ↦ rw e (
        ap
          (λ (n : ℕ).
            (record f { started_informers = put f.started_informers t true; wg = n }, (t, j) ∷ []))
          (omega arith))
  ]

  start_one-wg :
      (t : Bytes) (j : l.Informer) (f : SharedInformerFactory l) → f.wg ≤ (start_one l t j f).0.wg
  unfolding start_one
  start_one-wg t j f = ground arith

  start_all-returns :
      (xs : List (Bytes × l.Informer)) (f : SharedInformerFactory l)
      → 0 < f.wg
      → start_all l xs (one_less f) ≡ (one_less (start_all l xs f).0, (start_all l xs f).1)
  unfolding start_all
  start_all-returns [] f h = refl
  start_all-returns ((t, j) ∷ more) f h =
      rw
        (
          start_one-returns t j f h,
          start_all-returns more (start_one l t j f).0 (omega (arith, start_one-wg t j f)),
        )
        refl

  settle-returns :
      (m : Mutex l) (f : SharedInformerFactory l)
      → 0 < f.wg
      → settle m (one_less f) ≡ (one_less (settle m f).0, (settle m f).1)
  unfolding settle settle_at
  settle-returns free f h = refl
  settle-returns (held _ starting) f h = refl
  settle-returns (held _ (walking rest)) f h = start_all-returns rest f h
  settle-returns (held _ (added t j rest)) f h =
      ap (λ (r : Effect l). (r.0, (t, j) ∷ r.1)) (start_all-returns rest (marked t f) h)
  settle-returns (held _ (spawned t j rest)) f h = start_all-returns rest (marked t f) h
  settle-returns (held _ shutting) f h = refl
  settle-returns (held _ shut) f h = refl
  settle-returns (held _ (asking _ _)) f h = refl
  settle-returns (held _ collecting) f h = refl
  settle-returns (held _ leaving) f h = refl

  -- The calls, one after the other, after what has been.
  extend : List (Call l) → Effect l → Effect l
  extend cs (f, log) = let r = after_all l cs f in (r.0, log ++ r.1)

  Step-outcome :
      {s t : System l} (st : Step s t) → Inv s → outcome t ≡ extend (takes_effect st) (outcome s)
  unfolding outcome settle settle_at takes_effect extend after_all after start start_unless
      start_all start_one shutdown informer_returns
  Step-outcome {s} (lock_start i e) v = simp (append-nil, e)
  Step-outcome {s} (refused e h) v = simp (append-nil, e, h)
  Step-outcome {s} (walks e h) v = simp (append-nil, e, h)
  Step-outcome {s} (skips e h) v = simp (append-nil, e, h)
  Step-outcome {s} (adds e h) v = simp (append-nil, e, h)
  Step-outcome {s} (spawns e) v = simp (append-nil, append_assoc, e)
  Step-outcome {s} (marks e) v = simp (append-nil, e)
  Step-outcome {s} (walked e) v = simp (append-nil, e)
  Step-outcome {s} (lock_shutdown i e) v = simp (append-nil, e)
  Step-outcome {s} (shuts e) v = simp (append-nil, e)
  Step-outcome {s} (unlock_shutdown e) v = simp (append-nil, e)
  Step-outcome {s} (wait _ _) v = simp (append-nil)
  Step-outcome {s} (lock_informer_for i t f e) v = simp (append-nil, e)
  Step-outcome {s} (Step.asks e) v = simp (append-nil, e)
  Step-outcome {s} (lock_wait i e) v = simp (append-nil, e)
  Step-outcome {s} (collects e) v = simp (append-nil, e)
  Step-outcome {s} (unlock e) v = simp (append-nil, e)
  Step-outcome {s} (done h) v =
      simp (append-nil, settle-returns s.mutex s.factory (ground (arith, v.counted)))

  after_all-append :
      (cs ds : List (Call l)) (f : SharedInformerFactory l)
      → let a = after_all l cs f in
        let b = after_all l ds a.0 in after_all l (cs ++ ds) f ≡ (b.0, a.1 ++ b.1)
  unfolding after_all
  after_all-append [] ds f = refl
  after_all-append (c ∷ cs) ds f = simp (after_all-append cs ds (after l c f).0, append_assoc)

  Reach-outcome :
      {s t : System l} (r : Reach s t) → Inv s → outcome t ≡ extend (calls r) (outcome s)
  unfolding calls extend after_all
  Reach-outcome here v = simp (append-nil)
  Reach-outcome {s} (next r st) v =
      Step-outcome st (Reach-Inv r v)
      ∙ ap (extend (takes_effect st)) (Reach-outcome r v)
      ∙ simp (after_all-append (calls r) (takes_effect st) (outcome s).0, append_assoc)

  -- However the calls are interleaved, on a factory that has nothing to wait for at first: whenever the
  -- mutex is free, the factory is what the calls leave one after the other, in the order in which they
  -- took effect, and the informers launched are those that these calls launch, in that order.
  pub interleaved_sequential :
      {t : System l} (f : SharedInformerFactory l)
      → f.wg ≡ 0
      → (r : Reach (at_first f) t) → t.mutex ≡ free
      → after_all l (calls r) f ≡ (t.factory, t.launched)
  unfolding outcome settle extend
  interleaved_sequential {t} f e r m =
      sym (Reach-outcome r (at_first-Inv f e)) ∙ simp (append-nil, m)
