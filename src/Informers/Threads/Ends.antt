-- ===== src/Informers/Threads/Ends.antt =====
-- No call of the factory blocks another for ever.
use kubernetes_programming.Prelude.{
  Bytes, false, ℕ, zero, suc, List, [], ◌∷◌, Option, none, some, ◌≡◌, ◌⊎◌, refl, arith, inl, inr,
  Bool-cases, ◌∙◌,
}
use kubernetes_programming.Prelude.Maps.{is_set}
use kubernetes_programming.Informers.{InformerLib, SharedInformerFactory}
use kubernetes_programming.Informers.Threads.{
  starting, walking, added, spawned, shutting, shut, asking, collecting, leaving, Mutex, free, held,
  waits, returned, at_stage, System, at_first, Step, Place, lock_start, lock_shutdown,
  lock_informer_for, lock_wait, refused, walks, skips, adds, spawns, marks, walked, shuts,
  unlock_shutdown, wait, asks, collects, unlock, done, Reach,
}
use kubernetes_programming.Informers.Threads.Quiet.{
  ahead, is_launching, Inv, Step-Inv, Reach-Inv, at_first-Inv,
}

-- The informers' goroutines, and the caller `i`.
abbrev pub IsOneOf : ℕ → Option ℕ → Type 0
IsOneOf i a = (a ≡ none) ⊎ (a ≡ some i)

module _ {l : InformerLib} where
  -- Whose step it is: a caller's, or that of an informer's goroutine.
  abbrev pub actor : {s t : System l} → Step s t → Option ℕ
  actor (lock_start i _) = some i
  actor (refused {i} _ _) = some i
  actor (walks {i} _ _) = some i
  actor (skips {i} {t} {j} {more} _ _) = some i
  actor (adds {i} {t} {j} {more} _ _) = some i
  actor (spawns {i} {t} {j} {more} _) = some i
  actor (marks {i} {t} {j} {more} _) = some i
  actor (walked {i} _) = some i
  actor (lock_shutdown i _) = some i
  actor (shuts {i} _) = some i
  actor (unlock_shutdown {i} _) = some i
  actor (wait {i} _ _) = some i
  actor (lock_informer_for i _ _ _) = some i
  actor (asks {i} {t} {new_func} _) = some i
  actor (lock_wait i _) = some i
  actor (collects {i} _) = some i
  actor (unlock {i} _) = some i
  actor (done _) = none

  -- A run of steps of those only.
  pub data RunBy (Who : Option ℕ → Type 0) (s : System l) : System l → Type 0 where
    stays : RunBy Who s s
    steps : {t u : System l} → RunBy Who s t → (st : Step t u) → Who (actor st) → RunBy Who s u

  abbrev pub IsHolder : Mutex l → Option ℕ → Type 0
  IsHolder free a = ⊥
  IsHolder (held i _) a = a ≡ some i

  -- The mutex is made free by steps of the one that holds it.
  abbrev pub Frees : System l → Type 0
  Frees s = (u : System l) × RunBy (IsHolder s.mutex) s u × (u.mutex ≡ free)

  -- The same, begun by steps of the holder `i`.
  abbrev FreesBy : ℕ → System l → Type 0
  FreesBy i s = (u : System l) × RunBy (λ a. a ≡ some i) s u × (u.mutex ≡ free)

  abbrev Alone : ℕ → System l → System l → Type 0
  Alone i s t = RunBy (λ a. a ≡ some i) s t

  leaves : {s t : System l} {i : ℕ} → Alone i s t → t.mutex ≡ held i leaving → FreesBy i s
  leaves r e = (_, steps r (unlock e) refl, refl)

  walk_ends :
      (more : List (Bytes × l.Informer)) {s t : System l} {i : ℕ}
      → Alone i s t
      → t.mutex ≡ held i (walking more)
      → FreesBy i s
  walk_ends [] r e = leaves (steps r (walked e) refl) refl
  walk_ends ((y, j) ∷ more) {s} {t} r e = elim (Bool-cases (is_set t.factory.started_informers y)) [
    | inl h ↦ walk_ends more (steps r (skips e h) refl) refl
    | inr h ↦
        walk_ends more
          (steps (steps (steps r (adds e h) refl) (spawns refl) refl) (marks refl) refl) refl
  ]

  spawn_ends :
      {s t : System l} {i : ℕ} {y : Bytes} {j : l.Informer} (more : List (Bytes × l.Informer))
      → Alone i s t
      → t.mutex ≡ held i (spawned y j more)
      → FreesBy i s
  spawn_ends more r e = walk_ends more (steps r (marks e) refl) refl

  -- Whoever holds the mutex comes to its Unlock.
  holder_frees : {s : System l} (i : ℕ) (x : Place l) → s.mutex ≡ held i x → FreesBy i s
  holder_frees {s} i starting e = elim (Bool-cases s.factory.shutting_down) [
    | inl h ↦ leaves (steps stays (refused e h) refl) refl
    | inr h ↦ walk_ends s.factory.informers (steps stays (walks e h) refl) refl
  ]
  holder_frees i (walking more) e = walk_ends more stays e
  holder_frees i (added y j more) e = spawn_ends more (steps stays (spawns e) refl) refl
  holder_frees i (spawned y j more) e = spawn_ends more stays e
  holder_frees i shutting e =
      (_, steps (steps stays (shuts e) refl) (unlock_shutdown refl) refl, refl)
  holder_frees i shut e = (_, steps stays (unlock_shutdown e) refl, refl)
  holder_frees i (asking y new_func) e = leaves (steps stays (asks e) refl) refl
  holder_frees i collecting e = leaves (steps stays (collects e) refl) refl
  holder_frees i leaving e = leaves stays e

  FreesFrom : Mutex l → System l → Type 0
  FreesFrom x s = (u : System l) × RunBy (IsHolder x) s u × (u.mutex ≡ free)

  frees_from : (x : Mutex l) (s : System l) → s.mutex ≡ x → FreesFrom x s
  unfolding FreesFrom
  frees_from free s e = (s, stays, e)
  frees_from (held i x) s e = holder_frees i x e

  nothing_ahead : (x : Mutex l) → is_launching x ≡ false → ahead x ≡ 0
  nothing_ahead x h = ground (arith, h)

  -- A state in which the call of Shutdown has returned, reached by steps of the informers' goroutines
  -- and of the call itself.
  abbrev pub Returns : System l → ℕ → System l → Type 0
  Returns s i t =
      (u : System l) × RunBy (IsOneOf i) s u
      × (u.stage i ≡ returned)
      × (u.mutex ≡ t.mutex)
      × (u.launched ≡ t.launched)

  stage_returned :
      (s : System l) (i : ℕ) → (record s { stage = at_stage s.stage i returned }).stage i ≡ returned
  stage_returned s i = ground arith

  drains :
      (n : ℕ) {s t : System l} (i : ℕ)
      → RunBy (IsOneOf i) s t
      → Inv t
      → t.live ≡ n
      → t.stage i ≡ waits
      → Returns s i t
  drains zero {s} {t} i r v e h =
      let d = v.refusing (v.staged i (λ b. cc)) in
      (
        _,
        steps r (wait h (v.counted ∙ omega (arith, e, nothing_ahead t.mutex d))) (inr refl),
        stage_returned t i,
        refl,
        refl,
      )
  drains (suc n) {s} {t} i r v e h =
      let st = done (omega (arith, e)) in
      drains n i (steps r st (inl refl)) (Step-Inv st v) (omega (arith, e)) h

  -- However calls have been interleaved on a factory that had nothing to wait for at first: while a
  -- call of Shutdown waits, no other call is blocked for ever, since the holder of the mutex has steps
  -- that free it; and the call itself can return once the informers' goroutines have, with no step of
  -- another caller: the mutex stays with whom it is, and no informer is launched.
  pub no_deadlock :
      {t : System l} (f : SharedInformerFactory l) (i : ℕ)
      → f.wg ≡ 0
      → Reach (at_first f) t
      → t.stage i ≡ waits
      → Frees t × Returns t i t
  no_deadlock {t} f i e r h = (
    unfold FreesFrom in frees_from t.mutex t refl,
    drains t.live i stays (Reach-Inv r (at_first-Inv f e)) refl h,
  )
