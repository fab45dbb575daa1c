-- ===== src/Operator/Equivalence.antt =====
-- The two controllers take the same decisions.
use kubernetes_programming.Prelude.{
  Bytes, false, some, none, ◌≡◌, inl, inr, ◌∙◌, sym, refl, ap, subst, arith, Option, Bool-cases,
}
use kubernetes_programming.Clock.{Instant, Duration, Parsed, parsed, fails, is_positive}
use kubernetes_programming.Api.{
  At, phase_running, PhaseCase, pending, running, done, other, phase_case, deep_equal,
}
use kubernetes_programming.Api.Equal.{deep_equal_refl}
use kubernetes_programming.Kube.{Pod, not_found, failure, Result, ok, err, Machinery, Cluster}
use kubernetes_programming.Controller
use kubernetes_programming.Controller.{SyncResult, sync_handler, at_kind, add_owner, owned_pod}
use kubernetes_programming.Controller.Edges.{default_phase_running}
use kubernetes_programming.Controller.Progress.{changed, changed_done, not_running}
use kubernetes_programming.Operator.{
  owned, Client, Err, Outcome, Flow, leave, fall, set_phase, new_pod_for_cr, time_until_schedule,
  after_schedule, after_create, after_get, with_reference, switch, updated, save, after_fetch,
  reconcile,
}

-- The client reads Ats as the lister does, and its cached reads of pods are fresh: they answer as the
-- API server does. It calls what the clientset calls. SetControllerReference is promised for a pod
-- without owners in the namespace of its At only: there it sets the reference of NewControllerRef.
pub record Agree {W : Type 0} (m : Machinery) (k : Cluster W) (c : Client W) : Type 0 where
  pub get_at : (ns n : Bytes) (w : W) → c.get_at ns n w ≡ (k.lister_get ns n w, w)
  pub get_pod : (ns n : Bytes) (w : W) → c.get_pod ns n w ≡ k.get_pod ns n w
  pub create : (p : Pod) (w : W) → c.create p w ≡ k.create_pod p w
  pub status_update : (at : At) (w : W) → c.status_update at w ≡ k.update_status at w
  pub reference :
      (at : At) (p : Pod)
      → p.meta.owner_references ≡ none
      → p.meta.namespace ≡ at.meta.namespace
      → c.set_controller_reference at p ≡ owned (add_owner (m.new_controller_ref at at_kind) p)

abbrev as_err : Controller.Err → Err
as_err (Controller.Err.api e) = Err.api e
as_err (Controller.Err.schedule e) = Err.schedule e

abbrev as_error : Option Controller.Err → Option Err
as_error none = none
as_error (some e) = some (as_err e)

-- A result of the sync handler, as one of Reconcile.
abbrev pub as_outcome : SyncResult → Outcome
as_outcome r = record { requeue_after = r.when; error = as_error r.error }

pub new_pod_same : (at : At) → new_pod_for_cr at ≡ Controller.new_pod_for_cr at
unfolding new_pod_for_cr Controller.new_pod_for_cr
new_pod_same at = refl

until_same :
    (now : Instant) (s : Bytes) → time_until_schedule now s ≡ Controller.time_until_schedule now s
unfolding time_until_schedule Controller.time_until_schedule
until_same now s = ground arith

set_phase_same : (at : At) → set_phase at ≡ Controller.default_phase at
unfolding set_phase Controller.default_phase
set_phase_same at = refl

module _ {W : Type 0} (m : Machinery) (k : Cluster W) (c : Client W) (agree : Agree m k c) where
  -- How Reconcile's result stands to that of the sync handler: the same result in the same world; or
  -- both have just created the pod of a RUNNING At, and Reconcile writes the At's unchanged status too.
  pub data Same : SyncResult × W → Outcome × W → Type 0 where
    same : {r : SyncResult} {w : W} → Same (r, w) (as_outcome r, w)
    rewrites :
        (at : At) (p : Pod) (w : W)
        → phase_case at.status.phase ≡ running
        → (k.create_pod (owned_pod m at) w).0 ≡ ok p
        → Same
            (Controller.stop, (k.create_pod (owned_pod m at) w).1)
            (updated c (c.status_update at (k.create_pod (owned_pod m at) w).1))

  -- The same of what the switch leaves.
  data FlowSame (at : At) : Controller.Flow × W → Flow × W → Type 0 where
    both_leave :
        {r : SyncResult} {w : W}
        → FlowSame at (Controller.Flow.leave r, w) (leave (as_outcome r), w)
    both_save :
        {a : At} {w : W}
        → deep_equal at a ≡ false
        → FlowSame at (Controller.Flow.fall a, w) (fall a, w)
    launched :
        (p : Pod) (w : W)
        → phase_case at.status.phase ≡ running
        → (k.create_pod (owned_pod m at) w).0 ≡ ok p
        → FlowSame at
            (Controller.Flow.fall at, (k.create_pod (owned_pod m at) w).1)
            (fall at, (k.create_pod (owned_pod m at) w).1)

  updated_same :
      (x : Result At × W)
      → updated c x ≡ (as_outcome (Controller.updated m k x).0, (Controller.updated m k x).1)
  unfolding updated Controller.updated
  updated_same (ok a, w) = refl
  updated_same (err e, w) = refl

  save-Same :
      (at : At) (f : Controller.Flow × W) (g : Flow × W)
      → FlowSame at f g
      → Same (Controller.save m k at f) (save c g)
  unfolding save Controller.save
  save-Same at f g both_leave = same
  save-Same at f g (both_save {a} {w} d) =
      rw (d, agree.status_update a w, updated_same (k.update_status a w)) same
  save-Same at f g (launched p w r h) = rw (deep_equal_refl at) (rewrites at p w r h)

  after_create_same :
      (at : At) (w : W) (x : Result Pod × W)
      → phase_case at.status.phase ≡ running
      → k.create_pod (owned_pod m at) w ≡ x
      → FlowSame at (Controller.after_create m k at x) (after_create c at x)
  unfolding after_create Controller.after_create
  after_create_same at w (ok p, u) r h =
      subst (λ (a : W). FlowSame at (Controller.Flow.fall at, a) (fall at, a))
        (ap (λ (x : Result Pod × W). x.1) h) (launched p w r (ap (λ (x : Result Pod × W). x.0) h))
  after_create_same at w (err e, u) r h = both_leave

  after_get_same :
      (at : At) (x : Result Pod × W)
      → phase_case at.status.phase ≡ running
      → FlowSame at (Controller.after_get m k at x) (after_get c at (owned_pod m at) x)
  unfolding after_get Controller.after_get Controller.is_terminated
  after_get_same at (err not_found, w) r =
      rw (agree.create (owned_pod m at) w) (after_create_same at w _ r refl)
  after_get_same at (err (failure e), w) r = both_leave
  after_get_same at (ok p, w) r = elim (Bool-cases (Controller.is_terminated p)) [
    | inl e ↦ rw e (both_save (changed_done at r))
    | inr e ↦ rw e both_leave
  ]

  reference_same :
      (at : At) → c.set_controller_reference at (new_pod_for_cr at) ≡ owned (owned_pod m at)
  unfolding owned_pod new_pod_for_cr
  reference_same at =
      agree.reference at _ refl refl
      ∙ ap (λ p. owned (add_owner (m.new_controller_ref at at_kind) p)) (new_pod_same at)

  running_same :
      (at : At) (w : W)
      → phase_case at.status.phase ≡ running
      → FlowSame at
          (Controller.running_case m k at w)
          (with_reference c at (c.set_controller_reference at (new_pod_for_cr at)) w)
  unfolding with_reference Controller.running_case
  running_same at w r =
      rw (reference_same at, with_reference, agree.get_pod _ _ w) (after_get_same at _ r)

  after_schedule_same :
      (at : At) (w : W) (d : Parsed Duration)
      → phase_case (Controller.default_phase at).status.phase ≡ pending
      → FlowSame at
          (Controller.after_schedule (Controller.default_phase at) d, w)
          (after_schedule (Controller.default_phase at) d, w)
  unfolding after_schedule Controller.after_schedule
  after_schedule_same at w (fails e) h = both_leave
  after_schedule_same at w (parsed d) h = elim (Bool-cases (is_positive d)) [
    | inl e ↦ rw e both_leave
    | inr e ↦ rw e (both_save (changed at phase_running (λ x. cc) (not_running _ h)))
  ]

  switch_same :
      (now : Instant) (at : At) (w : W) (x : PhaseCase)
      → phase_case (Controller.default_phase at).status.phase ≡ x
      → FlowSame at
          (Controller.switch m k now x (Controller.default_phase at) w)
          (switch c now x (Controller.default_phase at) w)
  unfolding switch Controller.switch Controller.pending_case
  switch_same now at w pending h = rw until_same (after_schedule_same at w _ h)
  switch_same now at w running h =
      let d = default_phase_running at h in
      subst
        (λ a.
          FlowSame at (Controller.running_case m k a w)
            (with_reference c a (c.set_controller_reference a (new_pod_for_cr a)) w))
        (sym d) (running_same at w (subst (λ (a : At). phase_case a.status.phase ≡ running) d h))
  switch_same now at w done h = both_leave
  switch_same now at w other h = both_leave

  after_fetch-Same :
      (now : Instant) (r : Result At) (w : W)
      → Same (Controller.from_lister m k now r w) (after_fetch c now (r, w))
  unfolding after_fetch Controller.from_lister Controller.sync_at
  after_fetch-Same now (err not_found) w = same
  after_fetch-Same now (err (failure e)) w = same
  after_fetch-Same now (ok at) w =
      rw (set_phase_same at) (save-Same at _ _ (switch_same now at w _ refl))

  -- On the same cluster, for the key of a namespace and a name, at any instant and in any world, if the
  -- client's cached reads answer as the lister and the API server do: Reconcile and the sync handler make the same calls and return the same, but that Reconcile writes
  -- the unchanged status of a RUNNING At when it has just created its pod.
  pub reconcile-Same :
      (now : Instant) (key ns n : Bytes) (w : W)
      → m.split_key key ≡ some (ns, n)
      → Same (sync_handler m k now key w) (reconcile c now ns n w)
  unfolding reconcile sync_handler Controller.from_key
  reconcile-Same now key ns n w h =
      rw (h, Controller.from_key, agree.get_at ns n w) (after_fetch-Same now _ w)
