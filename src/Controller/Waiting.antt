-- ===== src/Controller/Waiting.antt =====
-- When `syncHandler` asks to be called again, and after how long.
use kubernetes_programming.Prelude.{
  sym, Bytes, true, some, none, ◌≡◌, ◌≢◌, ◌<◌, refl, arith, Bool-cases, Option, inl, inr, ap,
}
use kubernetes_programming.Prelude.Int.{pos}
use kubernetes_programming.Clock.{Instant, Duration, Parsed, parsed, fails, parse, sub, is_positive}
use kubernetes_programming.Api.{
  At, AtSpec, PhaseCase, pending, running, done, other, phase_case, deep_equal,
}
use kubernetes_programming.Kube.{Pod, not_found, failure, Result, ok, err, Machinery, Cluster}
use kubernetes_programming.Controller.{
  SyncResult, Flow, leave, fall, stop, wait, is_terminated, time_until_schedule, default_phase,
  after_schedule, pending_case, running_case, after_get, after_create, switch, updated, save,
  sync_at, from_lister, from_key, sync_handler,
}
use kubernetes_programming.Controller.Edges.{default_phase-spec}
use kubernetes_programming.Controller.Safety.{until_parsed}

-- The flow asks for no later call.
abbrev Settled : Flow → Type 0
Settled (leave r) = r.when ≡ pos 0
Settled (fall _) = Unit

sub-lt : (t now : Instant) → is_positive (sub t now) ≡ true → now < t
unfolding sub
sub-lt t now h = ground arith

module _ {W : Type 0} (m : Machinery) (k : Cluster W) where
  after_create-Settled : (at : At) (x : Result Pod × W) → Settled (after_create m k at x).0
  unfolding after_create
  after_create-Settled at (ok _, w) = tt
  after_create-Settled at (err _, w) = refl

  after_get-Settled : (at : At) (x : Result Pod × W) → Settled (after_get m k at x).0
  unfolding after_get
  after_get-Settled at (err not_found, w) = after_create-Settled at _
  after_get-Settled at (err (failure e), w) = refl
  after_get-Settled at (ok p, w) = elim (Bool-cases (is_terminated p)) [
    | inl e ↦ rw e tt
    | inr e ↦ rw e refl
  ]

  updated-when : (x : Result At × W) → (updated m k x).0.when ≡ pos 0
  unfolding updated
  updated-when (ok _, w) = refl
  updated-when (err _, w) = refl

  save-when : (at : At) (f : Flow × W) → Settled f.0 → (save m k at f).0.when ≡ pos 0
  unfolding save
  save-when at (leave r, w) h = h
  save-when at (fall instance, w) h = elim (Bool-cases (deep_equal at instance)) [
    | inl e ↦ rw e
    | inr e ↦ rw e (updated-when _)
  ]

  -- Why and how a sync of `at` waits.
  abbrev pub Waits : Instant → At → W → SyncResult × W → Type 0
  Waits now at w x =
      (t : Instant) × (phase_case (default_phase at).status.phase ≡ pending)
      × (parse at.spec.schedule ≡ parsed t)
      × (now < t)
      × (x ≡ (wait (sub t now), w))

  after_schedule-Waits :
      (now : Instant) (at : At) (w : W) (d : Parsed Duration)
      → time_until_schedule now at.spec.schedule ≡ d
      → phase_case (default_phase at).status.phase ≡ pending
      → (save m k at (after_schedule (default_phase at) d, w)).0.when ≢ pos 0
      → Waits now at w (save m k at (after_schedule (default_phase at) d, w))
  unfolding after_schedule save
  after_schedule-Waits now at w (fails e) h c n = absurd (n refl)
  after_schedule-Waits now at w (parsed d) h c n = elim (Bool-cases (is_positive d)) [
    | inr e ↦ absurd (n (rw e (save-when at (fall _, w) tt)))
    | inl e ↦
        let (t, p, eq) = until_parsed now at.spec.schedule d h in
        (t, c, p, sub-lt t now (rw (← eq) e), rw (e, eq))
  ]

  switch-Waits :
      (now : Instant) (at : At) (w : W) (c : PhaseCase)
      → phase_case (default_phase at).status.phase ≡ c
      → (save m k at (switch m k now c (default_phase at) w)).0.when ≢ pos 0
      → Waits now at w (save m k at (switch m k now c (default_phase at) w))
  unfolding switch pending_case running_case
  switch-Waits now at w pending c n =
      after_schedule-Waits now at w _
        (ap (λ (x : AtSpec). time_until_schedule now x.schedule) (sym (default_phase-spec at))) c n
  switch-Waits now at w running c n = absurd (n (save-when at _ (after_get-Settled _ _)))
  switch-Waits now at w done c n = absurd (n (save-when at (leave stop, w) refl))
  switch-Waits now at w other c n = absurd (n (save-when at (leave stop, w) refl))

  from_lister-Waits :
      (now : Instant) (r : Result At) (w : W)
      → (from_lister m k now r w).0.when ≢ pos 0
      → (at : At) × (r ≡ ok at) × Waits now at w (from_lister m k now r w)
  unfolding from_lister sync_at
  from_lister-Waits now (err not_found) w n = absurd (n refl)
  from_lister-Waits now (err (failure e)) w n = absurd (n refl)
  from_lister-Waits now (ok at) w n = (at, refl, switch-Waits now at w _ refl n)

  from_key-Waits :
      (now : Instant) (key : Option (Bytes × Bytes)) (w : W)
      → (from_key m k now key w).0.when ≢ pos 0
      → (ns n : Bytes) × (at : At) × (key ≡ some (ns, n))
        × (k.lister_get ns n w ≡ ok at)
        × Waits now at w (from_key m k now key w)
  unfolding from_key
  from_key-Waits now none w n = absurd (n refl)
  from_key-Waits now (some (a, b)) w n =
      let (at, l, h) = from_lister-Waits now _ w n in (a, b, at, refl, l, h)

  -- A sync that returns a duration other than 0 has found a PENDING At (or one with no phase) whose
  -- schedule is still to come. It returns the time from now to the schedule and no error, and it has
  -- made no call that changes the world.
  pub sync-Waits :
      (now : Instant) (key : Bytes) (w : W)
      → (sync_handler m k now key w).0.when ≢ pos 0
      → (ns n : Bytes) × (at : At) × (m.split_key key ≡ some (ns, n))
        × (k.lister_get ns n w ≡ ok at)
        × Waits now at w (sync_handler m k now key w)
  unfolding sync_handler
  sync-Waits now key w = from_key-Waits now (m.split_key key) w
