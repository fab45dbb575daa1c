-- ===== src/Controller/Handlers.antt =====
-- controller.go: `enqueueAt`, `enqueuePod` and the event handlers that `NewController` registers.
pub mod Owner
use kubernetes_programming.Prelude.{Bytes, codes, Option, none, some, str_eq, if◌then◌else◌}
use kubernetes_programming.Kube.{
  Pod, Object, an_at, a_pod, tombstone, Result, ok, err, Machinery, Cluster,
}
use kubernetes_programming.Api.{At, OwnerReference}
use kubernetes_programming.Controller.Queue.{WorkQueue}

-- What an informer tells its handlers.
pub data Event : Type 0 where
  added : Object → Event
  updated : Object → Object → Event
  deleted : Object → Event

-- The pod of `enqueuePod`'s argument, itself or in a tombstone.
unfoldable pub pod_of_object : Object → Option Pod
pod_of_object (a_pod p) = some p
pod_of_object (tombstone (a_pod p)) = some p
pod_of_object _ = none

module _ {Q W : Type 0} (queue : WorkQueue Q) (m : Machinery) (k : Cluster W) where
  add_key : Option Bytes → Q → Q
  add_key none q = q
  add_key (some key) q = queue.add key q

  unfoldable pub enqueue_at : Object → Q → Q
  unfolding add_key
  enqueue_at o q = add_key (m.meta_key o) q

  enqueue_owner : Result At → Q → Q
  enqueue_owner (err _) q = q
  enqueue_owner (ok at) q = enqueue_at (an_at at) q

  enqueue_controlled : Pod → Option OwnerReference → W → Q → Q
  enqueue_controlled pod none w q = q
  enqueue_controlled pod (some ref) w q =
      if str_eq ref.kind (codes "At")
      then enqueue_owner (k.lister_get pod.meta.namespace ref.name w) q
      else q

  enqueue_decoded : Option Pod → W → Q → Q
  enqueue_decoded none w q = q
  enqueue_decoded (some pod) w q = enqueue_controlled pod (m.get_controller_of pod) w q

  unfoldable pub enqueue_pod : Object → W → Q → Q
  unfolding enqueue_decoded enqueue_controlled enqueue_owner enqueue_at pod_of_object
  enqueue_pod o w q = enqueue_decoded (pod_of_object o) w q

  -- AddFunc and UpdateFunc are set, DeleteFunc is not.
  unfoldable pub on_at_event : Event → Q → Q
  on_at_event (added o) q = enqueue_at o q
  on_at_event (updated old new) q = enqueue_at new q
  on_at_event (deleted o) q = q

  unfoldable pub on_pod_event : Event → W → Q → Q
  on_pod_event (added o) w q = enqueue_pod o w q
  on_pod_event (updated old new) w q = enqueue_pod new w q
  on_pod_event (deleted o) w q = q
