-- ===== src/Controller/Examples/Rounds.antt =====
-- The round in which a worker learns that the pod of an At has ended.
use kubernetes_programming.Prelude.{[], true, some, ◌≡◌, refl, str_eq}
use kubernetes_programming.Api.{phase_running, phase_done, phase_case}
use kubernetes_programming.Kube.{a_pod}
use kubernetes_programming.Kube.Memory.{
  memory, memory_view, machinery, find_at, memory-IsServer, memory-ListsByKey,
}
use kubernetes_programming.Controller.{
  at_kind, owned_pod, new_pod_for_cr, is_terminated, sync_handler,
}
use kubernetes_programming.Controller.Queue.{Item, process_next_work_item}
use kubernetes_programming.Controller.Handlers.{updated, on_pod_event, pod_of_object}
use kubernetes_programming.Controller.Handlers.Owner.{Owns}
use kubernetes_programming.Controller.Round.{update_finishes}
use kubernetes_programming.Controller.Examples.{
  ns, n, key, due, sample, fresh_pod, ended_pod, key-splits, sample-listed, no_pods,
}
use kubernetes_programming.Controller.Examples.Queues.{Items, queue}
use kubernetes_programming.Controller.Examples.Ways.{
  version_of, memory-IsUp, ended, shown, still_running,
}

abbrev idle : Items
idle = record { waiting = []; later = []; count = λ s. 0 }

owns : Owns queue machinery memory (a_pod ended_pod) ended key
unfolding pod_of_object owned_pod new_pod_for_cr find_at str_eq
owns = record {
  pod = ended_pod;
  ref = machinery.new_controller_ref (sample phase_running) at_kind;
  at = sample phase_running;
  decoded = refl;
  controlled = refl;
  kind = refl;
  listed = rw (still_running.0) (sample-listed phase_running no_pods);
  keyed = refl;
}

update_finishes_example :
    let u = (sync_handler machinery memory due key ended).1 in
    (process_next_work_item queue machinery memory due
        (on_pod_event queue machinery memory
          (updated (a_pod fresh_pod) (a_pod ended_pod))
          ended
          idle)
        ended
      ≡ (true, queue.done (Item.key key) (queue.forget (Item.key key) idle), u))
    × (u.phases ns n ≡ some phase_done)
unfolding phase_case owned_pod is_terminated str_eq
update_finishes_example =
    update_finishes queue machinery memory memory_view version_of memory-IsServer memory-ListsByKey
      memory-IsUp due key ns n (sample phase_running) ended_pod (a_pod fresh_pod) idle idle ended
      key-splits owns (shown ended phase_running still_running.0 still_running.1) refl refl refl
      refl
