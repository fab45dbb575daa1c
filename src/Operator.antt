-- ===== src/Operator.antt =====
-- cnat-kubebuilder/internal/controller/at_controller.go: the controller-runtime controller, with its
-- own `newPodForCR` and `timeUntilSchedule`.
pub mod Equivalence
pub mod Setup
mod Examples
use kubernetes_programming.Prelude.{
  Bytes, codes, [], ◌∷◌, ◌++◌, Option, none, some, ◌||◌, ℕ, if◌then◌else◌, str_eq,
}
use kubernetes_programming.Prelude.Int.{pos}
use kubernetes_programming.Text.{split}
use kubernetes_programming.Clock.{
  Instant, Duration, ParseError, Parsed, parsed, fails, parse, sub, is_positive,
}
use kubernetes_programming.Api.{
  At, no_meta, phase_pending, phase_running, phase_done, with_phase, PhaseCase, pending, running,
  done, other, phase_case,
}
use kubernetes_programming.Kube.{
  Pod, pod_failed, pod_succeeded, ApiError, not_found, failure, Result, ok, err,
}

-- What controllerutil.SetControllerReference gives: the pod with its new owner, or an error.
pub data Owned : Type 0 where
  owned : Pod → Owned
  refused : ℕ → Owned

-- client.Client and the owner references of controllerutil.
pub record Client (W : Type 0) : Type 0 where
  pub get_at : Bytes → Bytes → W → Result At × W
  pub get_pod : Bytes → Bytes → W → Result Pod × W
  pub create : Pod → W → Result Pod × W
  pub status_update : At → W → Result At × W
  pub set_controller_reference : At → Pod → Owned

pub data Err : Type 0 where
  api : ApiError → Err
  schedule : ParseError → Err
  reference : ℕ → Err

-- (ctrl.Result, error); the code sets no other field of the Result than RequeueAfter.
pub record Outcome : Type 0 where
  pub requeue_after : Duration
  pub error : Option Err

abbrev pub stop : Outcome
stop = record { requeue_after = pos 0; error = none }

abbrev pub fail : Err → Outcome
fail e = record { requeue_after = pos 0; error = some e }

abbrev pub wait : Duration → Outcome
wait d = record { requeue_after = d; error = none }

pub data Flow : Type 0 where
  leave : Outcome → Flow
  fall : At → Flow

unfoldable pub time_until_schedule : Instant → Bytes → Parsed Duration
time_until_schedule now s = elim (parse s) [ fails e ↦ fails e | parsed t ↦ parsed (sub t now) ]

unfoldable pub new_pod_for_cr : At → Pod
new_pod_for_cr cr = record {
  meta = record no_meta {
    name = cr.meta.name ++ codes "-pod";
    namespace = cr.meta.namespace;
    labels = some ((codes "app", cr.meta.name) ∷ []);
  };
  containers =
      record {
        name = codes "busybox";
        image = codes "busybox";
        command = split cr.spec.command b' ';
      }
      ∷ [];
  restart_policy = codes "OnFailure";
  node_name = [];
  phase = [];
  pod_ip = [];
  restart_counts = [];
  creation_timestamp = 0;
}

-- "If no phase set, default to pending".
unfoldable pub set_phase : At → At
set_phase at = if str_eq at.status.phase [] then with_phase at phase_pending else at

after_schedule : At → Parsed Duration → Flow
after_schedule at (fails e) = leave (fail (schedule e))
after_schedule at (parsed d) =
    if is_positive d then leave (wait d) else fall (with_phase at phase_running)

module _ {W : Type 0} (c : Client W) where
  after_create : At → Result Pod × W → Flow × W
  after_create at (err e, w) = (leave (fail (api e)), w)
  after_create at (ok _, w) = (fall at, w)

  after_get : At → Pod → Result Pod × W → Flow × W
  after_get at pod (err not_found, w) = after_create at (c.create pod w)
  after_get at pod (err (failure e), w) = (leave (fail (api (failure e))), w)
  after_get at pod (ok found, w) = (
    if str_eq found.phase pod_failed || str_eq found.phase pod_succeeded
        then fall (with_phase at phase_done)
        else leave stop,
    w,
  )

  with_reference : At → Owned → W → Flow × W
  with_reference at (refused e) w = (leave (fail (reference e)), w)
  with_reference at (owned pod) w = after_get at pod (c.get_pod pod.meta.namespace pod.meta.name w)

  switch : Instant → PhaseCase → At → W → Flow × W
  switch now pending at w = (after_schedule at (time_until_schedule now at.spec.schedule), w)
  switch now running at w = with_reference at (c.set_controller_reference at (new_pod_for_cr at)) w
  switch now done at w = (leave stop, w)
  switch now other at w = (leave stop, w)

  pub updated : Result At × W → Outcome × W
  updated (err e, w) = (fail (api e), w)
  updated (ok _, w) = (stop, w)

  -- The status is written whenever the switch does not return.
  save : Flow × W → Outcome × W
  save (leave r, w) = (r, w)
  save (fall instance, w) = updated (c.status_update instance w)

  after_fetch : Instant → Result At × W → Outcome × W
  after_fetch now (err not_found, w) = (stop, w)
  after_fetch now (err (failure e), w) = (fail (api (failure e)), w)
  after_fetch now (ok at, w) =
      let instance = set_phase at in save (switch now (phase_case instance.status.phase) instance w)

  pub reconcile : Instant → Bytes → Bytes → W → Outcome × W
  unfolding after_fetch
  reconcile now namespace name w = after_fetch now (c.get_at namespace name w)
