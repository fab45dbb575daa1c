-- ===== src/Controller/Examples/Events.antt =====
-- Events of a pod that a sync has created.
use kubernetes_programming.Prelude.{Bytes, List, [], ◌∷◌, some, ◌≡◌, refl, ◌⊎◌, str_eq}
use kubernetes_programming.Api.{phase_running}
use kubernetes_programming.Kube.{Object, an_at, a_pod, tombstone}
use kubernetes_programming.Kube.Memory.{Memory, memory, machinery, find_at}
use kubernetes_programming.Controller.{at_kind, owned_pod, new_pod_for_cr}
use kubernetes_programming.Controller.Queue.{shutdown, WorkQueue}
use kubernetes_programming.Controller.Handlers.{
  added, updated, pod_of_object, enqueue_pod, on_pod_event,
}
use kubernetes_programming.Controller.Handlers.Owner.{Owns, enqueue_pod_adds, owned_pod_requeues}
use kubernetes_programming.Controller.Examples.{
  key, sample, no_pods, world, fresh_pod, sample-listed,
}

-- A queue that only notes the keys that are added.
abbrev pub queue : WorkQueue (List Bytes)
queue = record {
  get = λ q. (shutdown, q);
  done = λ x q. q;
  forget = λ x q. q;
  add = λ s q. s ∷ q;
  add_rate_limited = λ s q. s ∷ q;
  add_after = λ s d q. s ∷ q;
}

abbrev here : Memory
here = world phase_running no_pods

-- The pod as the last known state of one that is gone.
abbrev gone : Object
gone = tombstone (a_pod fresh_pod)

owns : Owns queue machinery memory gone here key
unfolding pod_of_object owned_pod new_pod_for_cr find_at str_eq
owns = record {
  pod = fresh_pod;
  ref = machinery.new_controller_ref (sample phase_running) at_kind;
  at = sample phase_running;
  decoded = refl;
  controlled = refl;
  kind = refl;
  listed = refl;
  keyed = refl;
}

enqueue_pod_adds_example :
    (enqueue_pod queue machinery memory gone here [] ≡ [])
    ⊎ ((k : Bytes) × Owns queue machinery memory gone here k
        × (enqueue_pod queue machinery memory gone here [] ≡ k ∷ []))
enqueue_pod_adds_example = enqueue_pod_adds queue machinery memory gone here []

pod_controlled :
    machinery.get_controller_of fresh_pod
    ≡ some (machinery.new_controller_ref (sample phase_running) at_kind)
unfolding owned_pod new_pod_for_cr
pod_controlled = refl

sample_keyed : machinery.meta_key (an_at (sample phase_running)) ≡ some key
unfolding str_eq
sample_keyed = refl

owned_pod_requeues_example :
    (on_pod_event queue machinery memory (added (a_pod fresh_pod)) here [] ≡ key ∷ [])
    × (on_pod_event queue machinery memory (updated gone (a_pod fresh_pod)) here [] ≡ key ∷ [])
owned_pod_requeues_example =
    owned_pod_requeues queue machinery memory (sample phase_running) fresh_pod gone here [] key refl
      pod_controlled refl refl (sample-listed phase_running no_pods) sample_keyed
