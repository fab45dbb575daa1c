-- ===== src/Controller/Edges.antt =====
-- The edges of the phases, and what the switch of `syncHandler` does.
use kubernetes_programming.Prelude.{
  Bytes, [], true, false, some, ◌≡◌, inl, inr, refl, arith, ◌∙◌, Bool-cases, str_eq,
}
use kubernetes_programming.Clock.{Instant, Duration, Parsed, parsed, fails, is_positive}
use kubernetes_programming.Api.{
  At, phase_pending, phase_running, phase_done, with_phase, PhaseCase, pending, running, done,
  other, phase_case,
}
use kubernetes_programming.Kube.{Pod, not_found, failure, Result, ok, err, Machinery, Cluster}
use kubernetes_programming.Kube.Laws.{View, IsServer, SamePhases}
use kubernetes_programming.Controller.{
  SyncResult, Flow, leave, fall, time_until_schedule, owned_pod, is_terminated, default_phase,
  after_schedule, pending_case, running_case, after_get, after_create, switch,
}

-- The schedule of the At has come.
abbrev pub IsDue : Instant → At → Type 0
IsDue now at =
    (d : Duration) × (time_until_schedule now at.spec.schedule ≡ parsed d) × (is_positive d ≡ false)

-- A phase that a sync of `at` may write, and why.
pub data Edge {W : Type 0} (v : View W) (m : Machinery) (now : Instant) (at : At) (w : W)
    : Bytes → Type 0 where
  start :
      phase_case (default_phase at).status.phase ≡ pending
      → IsDue now at
      → Edge v m now at w phase_running
  finish :
      (p : Pod)
      → phase_case (default_phase at).status.phase ≡ running
      → v.pod_of w
          (owned_pod m (default_phase at)).meta.namespace
          (owned_pod m (default_phase at)).meta.name
        ≡ some p
      → is_terminated p ≡ true
      → Edge v m now at w phase_done

pub default_phase-spec : (at : At) → (default_phase at).spec ≡ at.spec
unfolding default_phase
default_phase-spec at = ground arith

pub default_phase-meta : (at : At) → (default_phase at).meta ≡ at.meta
unfolding default_phase
default_phase-meta at = ground arith

phase_case-pending : phase_case phase_pending ≡ pending
unfolding phase_case str_eq
phase_case-pending = refl

-- An At whose phase is set is taken as it is.
pub default_phase_running :
    (at : At) → phase_case (default_phase at).status.phase ≡ running → default_phase at ≡ at
unfolding default_phase
default_phase_running at h = elim (Bool-cases (str_eq at.status.phase [])) [
  | inl e ↦ absurd (cc (phase_case-pending, rw e at h))
  | inr e ↦ rw e
]

-- Where the pod of an At is looked for.
abbrev pub pod_namespace : Machinery → At → Bytes
pod_namespace m at = (owned_pod m (default_phase at)).meta.namespace

abbrev pub pod_name : Machinery → At → Bytes
pod_name m at = (owned_pod m (default_phase at)).meta.name

module _ {W : Type 0} (m : Machinery) (k : Cluster W) (v : View W) (s : IsServer k v) where
  -- What the switch leaves behind: phases as they were, and an instance to save that is either what
  -- it was or has followed an edge.
  pub data SwitchDoes (now : Instant) (at : At) (w : W) : Flow × W → Type 0 where
    leaves : {r : SyncResult} {w' : W} → SamePhases v w w' → SwitchDoes now at w (leave r, w')
    keeps :
        {w' : W}
        → SamePhases v w w'
        → default_phase at ≡ at
        → SwitchDoes now at w (fall (default_phase at), w')
    moves :
        {w' : W} {p : Bytes}
        → SamePhases v w w'
        → Edge v m now at w p
        → SwitchDoes now at w (fall (with_phase (default_phase at) p), w')

  after_schedule-does :
      (now : Instant) (at : At) (w : W) (t : Parsed Duration)
      → phase_case (default_phase at).status.phase ≡ pending
      → time_until_schedule now (default_phase at).spec.schedule ≡ t
      → SwitchDoes now at w (after_schedule (default_phase at) t, w)
  unfolding after_schedule
  after_schedule-does now at w (fails e) c h = leaves (λ ns n. refl)
  after_schedule-does now at w (parsed d) c h = elim (Bool-cases (is_positive d)) [
    | inl e ↦ rw e (leaves (λ ns n. refl))
    | inr e ↦ rw e (moves (λ ns n. refl) (start c (d, rw (← default_phase-spec at) h, e)))
  ]

  after_create-does :
      (now : Instant) (at : At) (w w' : W) (r : Result Pod)
      → SamePhases v w w'
      → default_phase at ≡ at
      → SwitchDoes now at w (after_create m k (default_phase at) (r, w'))
  unfolding after_create
  after_create-does now at w w' (ok _) h d = keeps h d
  after_create-does now at w w' (err _) h d = leaves h

  after_get-does :
      (now : Instant) (at : At) (w w' : W) (r : Result Pod)
      → SamePhases v w w'
      → phase_case (default_phase at).status.phase ≡ running
      → ((p : Pod) → r ≡ ok p → v.pod_of w (pod_namespace m at) (pod_name m at) ≡ some p)
      → SwitchDoes now at w (after_get m k (default_phase at) (r, w'))
  unfolding after_get
  after_get-does now at w w' (err not_found) h c found =
      let pod = owned_pod m (default_phase at) in
      after_create-does now at w (k.create_pod pod w').1 (k.create_pod pod w').0
        (λ ns n. s.create_phases pod w' ns n ∙ h ns n) (default_phase_running at c)
  after_get-does now at w w' (err (failure e)) h c found = leaves h
  after_get-does now at w w' (ok p) h c found = elim (Bool-cases (is_terminated p)) [
    | inl e ↦ rw e (moves h (finish p c (found p refl) e))
    | inr e ↦ rw e (leaves h)
  ]

  running_case-does :
      (now : Instant) (at : At) (w : W)
      → phase_case (default_phase at).status.phase ≡ running
      → SwitchDoes now at w (running_case m k (default_phase at) w)
  unfolding running_case
  running_case-does now at w c =
      let ns = pod_namespace m at in
      let n = pod_name m at in
      after_get-does now at w (k.get_pod ns n w).1 (k.get_pod ns n w).0 (s.get_phases ns n w) c
        (s.get_ok ns n w)

  pub switch-does :
      (now : Instant) (at : At) (w : W) (c : PhaseCase)
      → phase_case (default_phase at).status.phase ≡ c
      → SwitchDoes now at w (switch m k now c (default_phase at) w)
  unfolding switch pending_case
  switch-does now at w pending h = after_schedule-does now at w _ h refl
  switch-does now at w running h = running_case-does now at w h
  switch-does now at w done h = leaves (λ ns n. refl)
  switch-does now at w other h = leaves (λ ns n. refl)
