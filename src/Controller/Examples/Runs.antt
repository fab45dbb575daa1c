-- ===== src/Controller/Examples/Runs.antt =====
-- A run of the controller from a new At to its pod.
use kubernetes_programming.Prelude.{
  Bytes, [], ◌∷◌, ◌++◌, some, ◌≡◌, refl, ap, sym, inl, inr, arith, str_eq,
}
use kubernetes_programming.Clock.{sub, run_parse}
use kubernetes_programming.Text.{split}
use kubernetes_programming.Api.{At, phase_running, phase_case, deep_equal}
use kubernetes_programming.Kube.{ok}
use kubernetes_programming.Kube.Memory.{
  Memory, memory, memory_view, machinery, find_at, find_at_single, memory-IsServer,
  memory-ListsByKey,
}
use kubernetes_programming.Controller.{
  sync_handler, from_key, from_lister, sync_at, default_phase, switch, pending_case, after_schedule,
  time_until_schedule, save, running_case, after_get, after_create, updated, owned_pod,
}
use kubernetes_programming.Controller.Safety.{
  Due, IsStarted, Outside, Reach, here, next, sync, tick, outside, pod_suffix,
  launch_after_schedule,
}
use kubernetes_programming.Controller.Examples.{
  ns, n, key, moment, due, early, sample, no_pods, sched, world, fresh_pod, memory-KeepsCache,
}

-- The stored phase after the first sync that comes in time, and the cache refreshed.
abbrev started : Memory
started = (sync_handler machinery memory due key (world [] no_pods)).1

abbrev pub seen : Memory
seen = record started { cached = sample phase_running ∷ [] }

abbrev pub launched : Memory
launched = (sync_handler machinery memory due key seen).1

pub stored_running : started.phases ns n ≡ some phase_running
unfolding sync_handler from_key from_lister sync_at default_phase switch pending_case after_schedule
    time_until_schedule sub save updated split find_at str_eq phase_case deep_equal run_parse
stored_running = refl

refresh : Outside machinery memory memory_view sched started seen
refresh = record {
  phases = λ a b p e st. e;
  schedules = λ a b at l. ap (λ (x : At). x.spec.schedule) (find_at_single _ at a b l).0;
  listing = λ a b at l. inr (seen_stored a b at l);
  pods = λ a b p e. (p, e);
}
  where
    seen_stored :
        (a b : Bytes) (at : At)
        → find_at (sample phase_running ∷ []) a b ≡ ok at
        → started.phases a b ≡ some at.status.phase
    seen_stored a b at l =
        let (e, f, g) = find_at_single _ at a b l in rw (e, ← f, ← g, stored_running)

run : Reach machinery memory memory_view sched early (world [] no_pods) due launched
run =
    next
      (next
        (next (next here (tick early due (world [] no_pods) (omega arith)))
          (sync due (world [] no_pods) key))
        (outside due started seen refresh))
      (sync due seen key)

pod_launched : launched.pods ns (n ++ pod_suffix) ≡ some fresh_pod
unfolding sync_handler from_key from_lister sync_at default_phase switch running_case after_get
    after_create save updated split find_at str_eq phase_case deep_equal owned_pod pending_case
    after_schedule time_until_schedule sub run_parse
pod_launched = refl

phase_unset : (q : Bytes) → [] ≡ q → ¬ IsStarted q
unfolding phase_case str_eq
phase_unset q e (inl h) = cc
phase_unset q e (inr h) = cc

unset : (a b q : Bytes) → memory_view.phase_of (world [] no_pods) a b ≡ some q → ¬ IsStarted q
unset a b q e st = phase_unset q (ground arith) st

listed_unset :
    (a b : Bytes) (at : At)
    → memory.lister_get a b (world [] no_pods) ≡ ok at
    → (at.spec.schedule ≡ sched a b) × (¬ IsStarted at.status.phase)
listed_unset a b at l =
    let e = (find_at_single _ at a b l).0 in
    (ap (λ (x : At). x.spec.schedule) e, phase_unset _ (sym (ap (λ (x : At). x.status.phase) e)))

launch_after_schedule_example : Due due moment
launch_after_schedule_example =
    launch_after_schedule machinery memory memory_view sched memory-IsServer memory-ListsByKey
      memory-KeepsCache ns n fresh_pod unset listed_unset (λ a b. refl) run pod_launched
