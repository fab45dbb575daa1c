-- ===== src/Controller.antt =====
-- controller.go: the client-go controller. `syncHandler`, `newPodForCR` and `timeUntilSchedule`
-- are here; the work queue and the event handlers are in the children.
pub mod Edges
pub mod Transitions
pub mod Pods
pub mod Keeps
pub mod Life
pub mod Safety
pub mod Queue
pub mod Run
pub mod Handlers
pub mod New
pub mod Waiting
pub mod Progress
pub mod Completion
pub mod Round
pub mod Schedule
mod Examples
use kubernetes_programming.Prelude.{
  Bytes, List, codes, Bool, [], ◌∷◌, ◌++◌, Option, none, some, ◌||◌, if◌then◌else◌, str_eq,
}
use kubernetes_programming.Prelude.Int.{pos}
use kubernetes_programming.Text.{split}
use kubernetes_programming.Clock.{
  Instant, Duration, ParseError, Parsed, parsed, fails, parse, sub, is_positive,
}
use kubernetes_programming.Api.{
  At, no_meta, OwnerReference, phase_pending, phase_running, phase_done, with_phase, deep_equal,
  PhaseCase, pending, running, done, other, phase_case,
}
use kubernetes_programming.Kube.{
  Pod, pod_failed, pod_succeeded, ApiError, not_found, failure, Result, ok, err, GroupVersionKind,
  Machinery, Cluster,
}

pub data Err : Type 0 where
  api : ApiError → Err
  schedule : ParseError → Err

-- (time.Duration, error)
pub record SyncResult : Type 0 where
  pub when : Duration
  pub error : Option Err

abbrev pub stop : SyncResult
stop = record { when = pos 0; error = none }

abbrev pub fail : Err → SyncResult
fail e = record { when = pos 0; error = some e }

abbrev pub wait : Duration → SyncResult
wait d = record { when = d; error = none }

-- A case of the switch returns, or ends with the instance to save.
pub data Flow : Type 0 where
  leave : SyncResult → Flow
  fall : At → Flow

unfoldable pub time_until_schedule : Instant → Bytes → Parsed Duration
time_until_schedule now s = elim (parse s) [ fails e ↦ fails e | parsed t ↦ parsed (sub t now) ]

unfoldable pub new_pod_for_cr : At → Pod
new_pod_for_cr cr = record {
  meta = record no_meta {
    name = cr.meta.name ++ codes "-pod";
    namespace = cr.meta.namespace;
    labels = some ((codes "app", cr.meta.name) ∷ []);
  };
  containers =
      record {
        name = codes "busybox";
        image = codes "busybox";
        command = split cr.spec.command b' ';
      }
      ∷ [];
  restart_policy = codes "OnFailure";
  node_name = [];
  phase = [];
  pod_ip = [];
  restart_counts = [];
  creation_timestamp = 0;
}

-- cnatv1alpha1.SchemeGroupVersion.WithKind("At")
abbrev pub at_kind : GroupVersionKind
at_kind = record {
  group = codes "cnat.programming-kubernetes.info";
  version = codes "v1alpha1";
  kind = codes "At";
}

-- A nil slice has no elements.
abbrev pub listed : {A : Type 0} → Option (List A) → List A
listed none = []
listed (some xs) = xs

abbrev pub add_owner : OwnerReference → Pod → Pod
add_owner r pod = record pod {
  meta = record (pod.meta) { owner_references = some (listed pod.meta.owner_references ++ r ∷ []) };
}

-- The pod that the RUNNING case asks for.
unfoldable pub owned_pod : Machinery → At → Pod
unfolding new_pod_for_cr
owned_pod m at = add_owner (m.new_controller_ref at at_kind) (new_pod_for_cr at)

unfoldable pub is_terminated : Pod → Bool
is_terminated pod = str_eq pod.phase pod_failed || str_eq pod.phase pod_succeeded

-- An unset phase means PENDING.
unfoldable pub default_phase : At → At
default_phase at = if str_eq at.status.phase [] then with_phase at phase_pending else at

unfoldable pub after_schedule : At → Parsed Duration → Flow
after_schedule at (fails e) = leave (fail (schedule e))
after_schedule at (parsed d) =
    if is_positive d then leave (wait d) else fall (with_phase at phase_running)

unfoldable pub pending_case : Instant → At → Flow
unfolding after_schedule
pending_case now at = after_schedule at (time_until_schedule now at.spec.schedule)

module _ {W : Type 0} (m : Machinery) (k : Cluster W) where
  unfoldable pub after_create : At → Result Pod × W → Flow × W
  after_create at (err e, w) = (leave (fail (api e)), w)
  after_create at (ok _, w) = (fall at, w)

  unfoldable pub after_get : At → Result Pod × W → Flow × W
  unfolding after_create
  after_get at (err not_found, w) = after_create at (k.create_pod (owned_pod m at) w)
  after_get at (err (failure e), w) = (leave (fail (api (failure e))), w)
  after_get at (ok found, w) =
      (if is_terminated found then fall (with_phase at phase_done) else leave stop, w)

  unfoldable pub running_case : At → W → Flow × W
  unfolding after_get
  running_case at w =
      after_get at (k.get_pod (owned_pod m at).meta.namespace (owned_pod m at).meta.name w)

  unfoldable pub switch : Instant → PhaseCase → At → W → Flow × W
  switch now pending at w = (pending_case now at, w)
  switch now running at w = running_case at w
  switch now done at w = (leave stop, w)
  switch now other at w = (leave stop, w)

  unfoldable pub updated : Result At × W → SyncResult × W
  updated (err e, w) = (fail (api e), w)
  updated (ok _, w) = (stop, w)

  -- From the end of the switch: save the instance if it differs from the lister's object.
  unfoldable pub save : At → Flow × W → SyncResult × W
  unfolding updated
  save original (leave r, w) = (r, w)
  save original (fall instance, w) =
      if deep_equal original instance then (stop, w) else updated (k.update_status instance w)

  -- `instance` is a copy of the lister's object, and is defaulted before the switch.
  unfoldable pub sync_at : Instant → At → W → SyncResult × W
  unfolding switch save
  sync_at now original w =
      let instance = default_phase original in
      save original (switch now (phase_case instance.status.phase) instance w)

  unfoldable pub from_lister : Instant → Result At → W → SyncResult × W
  from_lister now (err not_found) w = (stop, w)
  from_lister now (err (failure e)) w = (fail (api (failure e)), w)
  from_lister now (ok original) w = sync_at now original w

  unfoldable pub from_key : Instant → Option (Bytes × Bytes) → W → SyncResult × W
  unfolding from_lister
  from_key now none w = (stop, w)
  from_key now (some (namespace, name)) w = from_lister now (k.lister_get namespace name w) w

  unfoldable pub sync_handler : Instant → Bytes → W → SyncResult × W
  unfolding from_key
  sync_handler now key w = from_key now (m.split_key key) w
