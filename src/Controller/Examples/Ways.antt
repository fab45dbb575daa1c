-- ===== src/Controller/Examples/Ways.antt =====
-- The At of the examples on its way from its schedule to DONE.
use kubernetes_programming.Prelude.{
  Bytes, codes, [], ◌∷◌, none, some, Option, ◌≡◌, refl, ap, str_eq, arith,
}
use kubernetes_programming.Clock.{sub, run_parse}
use kubernetes_programming.Text.{split}
use kubernetes_programming.Api.{phase_running, phase_done, phase_case, deep_equal}
use kubernetes_programming.Kube.{Pod}
use kubernetes_programming.Kube.Memory.{
  Memory, memory, memory_view, machinery, find_at, put, memory-IsServer, memory-ListsByKey,
}
use kubernetes_programming.Controller.{
  sync_handler, from_key, from_lister, sync_at, default_phase, switch, pending_case, after_schedule,
  time_until_schedule, save, running_case, after_get, after_create, updated, owned_pod, stop,
  is_terminated,
}
use kubernetes_programming.Controller.Completion.{IsUp, IsShown, synced, pod_at, completes}
use kubernetes_programming.Controller.Examples.{
  ns, n, key, due, sample, no_pods, world, ended_pod, key-splits,
}
use kubernetes_programming.Controller.Examples.Syncs.{is_due}
use kubernetes_programming.Controller.Examples.Runs.{seen, launched, stored_running}

-- Every stored At has the empty version.
abbrev empty_version : Option Bytes → Option Bytes
empty_version none = none
empty_version (some _) = some []

abbrev pub version_of : Memory → Bytes → Bytes → Option Bytes
version_of w a b = empty_version (w.phases a b)

pub memory-IsUp : IsUp memory memory_view version_of
memory-IsUp = record {
  finds = λ a b w p h. ground arith;
  misses = λ a b w h. ground arith;
  creates = λ p w h. (p, ground arith);
  updates = λ at w h. (at, ground arith);
  get_version = λ a b w c d. refl;
}

-- The second sync comes with a refreshed cache, the third when the pod has ended.
abbrev pub ended : Memory
ended = record launched { pods = put launched.pods ns (codes "a-pod") ended_pod }

pub shown :
    (w : Memory) (p : Bytes)
    → w.cached ≡ sample p ∷ []
    → w.phases ns n ≡ some p
    → IsShown memory memory_view version_of ns n (sample p) w
unfolding find_at str_eq
shown w p c h = record { listed = rw c refl; shows = h; current = ap empty_version h }

no_pod_yet : pod_at machinery memory_view (sample phase_running) seen ≡ none
unfolding sync_handler from_key from_lister sync_at default_phase switch running_case after_get
    after_create save updated split find_at str_eq phase_case deep_equal owned_pod pending_case
    after_schedule time_until_schedule sub run_parse
no_pod_yet = refl

pub still_running :
    (launched.cached ≡ sample phase_running ∷ []) × (launched.phases ns n ≡ some phase_running)
unfolding sync_handler from_key from_lister sync_at default_phase switch running_case after_get
    after_create save updated split find_at str_eq phase_case deep_equal owned_pod pending_case
    after_schedule time_until_schedule sub run_parse
still_running = (refl, refl)

completes_example :
    ((sync_handler machinery memory due key (world [] no_pods)).0 ≡ stop)
    × ((synced machinery memory key due (world [] no_pods)).phases ns n ≡ some phase_running)
    × ((sync_handler machinery memory due key seen).0 ≡ stop)
    × ((p : Pod) × (pod_at machinery memory_view (sample phase_running) launched ≡ some p))
    × ((sync_handler machinery memory due key ended).0 ≡ stop)
    × ((synced machinery memory key due ended).phases ns n ≡ some phase_done)
unfolding default_phase str_eq phase_case owned_pod is_terminated
completes_example =
    completes machinery memory memory_view version_of memory-IsServer memory-ListsByKey memory-IsUp
      key ns n key-splits due due due (sample []) (sample phase_running) (sample phase_running)
      (world [] no_pods) seen ended ended_pod (shown (world [] no_pods) [] refl refl) refl is_due
      (shown seen phase_running refl stored_running) refl no_pod_yet
      (shown ended phase_running still_running.0 still_running.1) refl refl refl
