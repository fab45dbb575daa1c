-- ===== src/Informers/Threads/Quiet.antt =====
-- What Shutdown waits for.
use kubernetes_programming.Prelude.{
  Bytes, Bool, true, false, ℕ, ◌+◌, ◌<◌, [], ◌∷◌, ◌≡◌, ◌≢◌, refl, arith, ◌∙◌,
}
use kubernetes_programming.Informers.{
  InformerLib, SharedInformerFactory, shutdown, informer_returns, informer_for,
}
use kubernetes_programming.Informers.Threads.{
  starting, walking, added, spawned, shutting, shut, asking, collecting, leaving, Mutex, free, held,
  before, returned, System, at_first, Step, lock_start, refused, walks, skips, adds, spawns, marks,
  walked, lock_shutdown, shuts, unlock_shutdown, wait, lock_informer_for, asks, lock_wait, collects,
  unlock, done, Reach, here, next,
}

-- The goroutines that are counted before they are there.
abbrev pub ahead : {l : InformerLib} → Mutex l → ℕ
ahead (held _ (added _ _ _)) = 1
ahead _ = 0

-- Start is past its test.
abbrev pub is_launching : {l : InformerLib} → Mutex l → Bool
is_launching (held _ (walking _)) = true
is_launching (held _ (added _ _ _)) = true
is_launching (held _ (spawned _ _ _)) = true
is_launching _ = false

abbrev pub has_set : {l : InformerLib} → Mutex l → Bool
has_set (held _ shut) = true
has_set _ = false

module _ {l : InformerLib} where
  pub record Inv (s : System l) : Type 0 where
    pub counted : s.factory.wg ≡ s.live + ahead s.mutex
    pub refusing : s.factory.shutting_down ≡ true → is_launching s.mutex ≡ false
    pub set : has_set s.mutex ≡ true → s.factory.shutting_down ≡ true
    pub staged : (i : ℕ) → s.stage i ≢ before → s.factory.shutting_down ≡ true
    pub quiet : (i : ℕ) → s.stage i ≡ returned → s.live ≡ 0

  asks-fields :
      (t : Bytes) (new_func : l.Client → _ → l.Informer) (f : SharedInformerFactory l)
      → ((informer_for l t new_func f).1.wg ≡ f.wg)
        × ((informer_for l t new_func f).1.shutting_down ≡ f.shutting_down)
  unfolding informer_for
  asks-fields t new_func f = ground arith

  -- The premises of a step, for the clause that takes most steps together.
  abbrev Guard : {s t : System l} → Step s t → Type 0
  Guard {s} (lock_start _ _) = s.mutex ≡ free
  Guard {s} (refused {i} _ _) = s.mutex ≡ held i starting
  Guard {s} (walks {i} _ _) = (s.mutex ≡ held i starting) × (s.factory.shutting_down ≡ false)
  Guard {s} (skips {i} {t} {j} {more} _ _) = s.mutex ≡ held i (walking ((t, j) ∷ more))
  Guard {s} (adds {i} {t} {j} {more} _ _) = s.mutex ≡ held i (walking ((t, j) ∷ more))
  Guard {s} (spawns {i} {t} {j} {more} _) = s.mutex ≡ held i (added t j more)
  Guard {s} (marks {i} {t} {j} {more} _) = s.mutex ≡ held i (spawned t j more)
  Guard {s} (walked {i} _) = s.mutex ≡ held i (walking [])
  Guard {s} (lock_shutdown _ _) = s.mutex ≡ free
  Guard {s} (shuts {i} _) = s.mutex ≡ held i shutting
  Guard {s} (unlock_shutdown {i} _) = s.mutex ≡ held i shut
  Guard {s} (wait {i} _ _) = s.factory.wg ≡ 0
  Guard {s} (lock_informer_for _ _ _ _) = s.mutex ≡ free
  Guard {s} (asks {i} {t} {new_func} _) = s.mutex ≡ held i (asking t new_func)
  Guard {s} (lock_wait _ _) = s.mutex ≡ free
  Guard {s} (collects {i} _) = s.mutex ≡ held i collecting
  Guard {s} (unlock {i} _) = s.mutex ≡ held i leaving
  Guard {s} (done _) = 0 < s.live

  guard : {s t : System l} (st : Step s t) → Guard st
  guard (lock_start _ e) = e
  guard (refused e _) = e
  guard (walks e h) = (e, h)
  guard (skips e _) = e
  guard (adds e _) = e
  guard (spawns e) = e
  guard (marks e) = e
  guard (walked e) = e
  guard (lock_shutdown _ e) = e
  guard (shuts e) = e
  guard (unlock_shutdown e) = e
  guard (wait _ h) = h
  guard (lock_informer_for _ _ _ e) = e
  guard (asks e) = e
  guard (lock_wait _ e) = e
  guard (collects e) = e
  guard (unlock e) = e
  guard (done h) = h

  pub Step-Inv : {s t : System l} → Step s t → Inv s → Inv t
  unfolding shutdown informer_returns
  Step-Inv {s} (asks {i} {t} {new_func} e) v =
      let (w, d) = asks-fields t new_func s.factory in
      record {
        counted = ground (arith, v.counted, w);
        refusing = λ h. refl;
        set = λ h. cc;
        staged = λ j h. d ∙ v.staged j h;
        quiet = v.quiet;
      }
  Step-Inv (wait {i} e h) v = record {
    counted = v.counted;
    refusing = v.refusing;
    set = v.set;
    staged = λ j g. v.staged i (λ b. cc);
    quiet = λ j g. ground (arith, v.counted, h);
  }
  Step-Inv st v = record {
    counted = ground (arith, v.counted, guard st);
    refusing = λ h. ground (arith, v.refusing, guard st);
    set = λ h. ground (arith, v.set, guard st);
    staged = λ i h. ground (arith, v.staged i, v.set, guard st);
    quiet = λ i h. ground (arith, v.counted, v.refusing, v.staged i, v.quiet i, guard st);
  }

  pub Reach-Inv : {s t : System l} → Reach s t → Inv s → Inv t
  Reach-Inv here v = v
  Reach-Inv (next r st) v = Step-Inv st (Reach-Inv r v)

  pub at_first-Inv : (f : SharedInformerFactory l) → f.wg ≡ 0 → Inv (at_first f)
  at_first-Inv f e = record {
    counted = omega (arith, e);
    refusing = λ h. refl;
    set = λ h. cc;
    staged = λ i h. absurd (h refl);
    quiet = λ i h. cc;
  }

  -- Nothing is launched any more.
  Ended : System l → System l → Type 0
  Ended s t = (t.factory.shutting_down ≡ true) × (t.live ≡ 0) × (t.launched ≡ s.launched)

  Step-Ended : {s t : System l} → Step s t → Inv s → Ended s s → Ended s t
  unfolding Ended shutdown informer_returns
  Step-Ended {s} (asks {i} {t} {new_func} e) v (d, q, r) =
      ((asks-fields t new_func s.factory).1 ∙ d, q, r)
  Step-Ended st v (d, q, r) = ground (arith, v.refusing, guard st)

  Reach-Ended : {s t : System l} → Reach s t → Inv s → Ended s s → Ended s t
  unfolding Ended
  Reach-Ended here v h = h
  Reach-Ended (next r st) v h =
      let (d, q, e) = Reach-Ended r v h in
      let (d', q', e') = Step-Ended st (Reach-Inv r v) (d, q, refl) in (d', q', e' ∙ e)

  -- However the calls of Start, Shutdown, InformerFor and WaitForCacheSync of any number of goroutines
  -- are interleaved, on a factory that has nothing to wait for at first: once a call of Shutdown has
  -- returned, no goroutine of an informer is left, and none is there in any later state either.
  pub returned_quiet :
      {t u : System l} (f : SharedInformerFactory l) (i : ℕ)
      → f.wg ≡ 0
      → Reach (at_first f) t
      → t.stage i ≡ returned
      → Reach t u
      → (t.live ≡ 0) × (u.live ≡ 0) × (u.launched ≡ t.launched)
  unfolding Ended
  returned_quiet {t} {u} f i e r h r' =
      let v = Reach-Inv r (at_first-Inv f e) in
      let none_live = v.quiet i h in
      let (d, q, k) = Reach-Ended r' v (v.staged i (λ b. cc), none_live, refl) in (none_live, q, k)
