-- ===== src/Controller/Examples/Syncs.antt =====
-- Syncs of an At, one by one and in a run.
use kubernetes_programming.Prelude.{Bytes, codes, [], some, ◌≡◌, ◌≢◌, refl, ◌⊎◌, arith, str_eq}
use kubernetes_programming.Prelude.Int.{pos}
use kubernetes_programming.Clock.{DateTime, parsed, date, sub, days_in, run_parse}
use kubernetes_programming.Clock.Format.{format, IsDate}
use kubernetes_programming.Api.{At, phase_running, phase_case}
use kubernetes_programming.Text.{split}
use kubernetes_programming.Kube.{ok}
use kubernetes_programming.Kube.Memory.{
  memory, memory_view, machinery, find_at, memory-IsServer, memory-ListsByKey,
}
use kubernetes_programming.Controller.{
  sync_handler, time_until_schedule, default_phase, switch, pending_case, after_schedule, save,
  sync_at, from_lister, from_key,
}
use kubernetes_programming.Controller.Edges.{Edge, IsDue}
use kubernetes_programming.Controller.Transitions.{sync_handler-moves}
use kubernetes_programming.Controller.Pods.{Launches, sync_handler-pods}
use kubernetes_programming.Controller.Waiting.{Waits, sync-Waits}
use kubernetes_programming.Controller.Schedule.{until_date}
use kubernetes_programming.Controller.Examples.{ns, n, key, due, early, sample, no_pods, world}

sync_handler-moves_example :
    (memory_view.phase_of (sync_handler machinery memory due key (world [] no_pods)).1 ns n
      ≡ memory_view.phase_of (world [] no_pods) ns n)
    ⊎ ((at : At) × (p : Bytes) × (memory.lister_get ns n (world [] no_pods) ≡ ok at)
        × Edge memory_view machinery due at (world [] no_pods) p
        × (memory_view.phase_of (sync_handler machinery memory due key (world [] no_pods)).1 ns n
            ≡ some p))
sync_handler-moves_example =
    sync_handler-moves machinery memory memory_view memory-IsServer memory-ListsByKey due key
      (world [] no_pods) ns n

sync_handler-pods_example :
    (memory_view.pod_of
        (sync_handler machinery memory due key (world phase_running no_pods)).1
        ns
        (codes "a-pod")
      ≡ memory_view.pod_of (world phase_running no_pods) ns (codes "a-pod"))
    ⊎ ((ns' n' : Bytes) × (at : At) × (machinery.split_key key ≡ some (ns', n'))
        × (memory.lister_get ns' n' (world phase_running no_pods) ≡ ok at)
        × Launches machinery memory memory_view memory-IsServer at
            (world phase_running no_pods)
            (sync_handler machinery memory due key (world phase_running no_pods)).1
            ns
            (codes "a-pod"))
sync_handler-pods_example =
    sync_handler-pods machinery memory memory_view memory-IsServer due key
      (world phase_running no_pods) ns (codes "a-pod")

waits_early : (sync_handler machinery memory early key (world [] no_pods)).0.when ≢ pos 0
unfolding sync_handler from_key from_lister sync_at default_phase switch pending_case after_schedule
    time_until_schedule sub save split find_at str_eq phase_case run_parse
waits_early e = cc

sync-Waits_example :
    (ns' n' : Bytes) × (at : At) × (machinery.split_key key ≡ some (ns', n'))
    × (memory.lister_get ns' n' (world [] no_pods) ≡ ok at)
    × Waits machinery memory early at
        (world [] no_pods)
        (sync_handler machinery memory early key (world [] no_pods))
sync-Waits_example = sync-Waits machinery memory early key (world [] no_pods) waits_early

pub is_due : IsDue due (sample [])
unfolding time_until_schedule sub run_parse
is_due = (pos 0, refl, refl)

abbrev day : DateTime
day = record { year = 2019; month = 7; day = 3; hour = 2; minute = 0; second = 0; nanosecond = 0 }

day-IsDate : IsDate day
unfolding days_in
day-IsDate = record {
  year_four = omega arith;
  month_low = omega arith;
  month_high = omega arith;
  day_low = omega arith;
  day_high = omega arith;
  hour_high = omega arith;
  minute_high = omega arith;
  second_high = omega arith;
  whole = refl;
}

until_date_example : time_until_schedule early (format day) ≡ parsed (sub (date day) early)
until_date_example = until_date early day day-IsDate
