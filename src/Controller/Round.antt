-- ===== src/Controller/Round.antt =====
-- One round of the controller: an event, its key on the queue, a worker, and the sync handler.
use kubernetes_programming.Prelude.{Bytes, Option, true, some, ◌≡◌, refl}
use kubernetes_programming.Clock.{Instant}
use kubernetes_programming.Api.{At, phase_done, phase_case, running}
use kubernetes_programming.Kube.{Pod, Object, a_pod, Machinery, Cluster}
use kubernetes_programming.Kube.Laws.{View, IsServer, ListsByKey}
use kubernetes_programming.Controller.{stop, is_terminated, sync_handler}
use kubernetes_programming.Controller.Queue.{
  key, item, WorkQueue, requeue, process_item, process_got, process_next_work_item,
}
use kubernetes_programming.Controller.Handlers.{updated, on_pod_event}
use kubernetes_programming.Controller.Handlers.Owner.{Owns, enqueue_pod_owned}
use kubernetes_programming.Controller.Completion.{IsUp, IsShown, pod_at, any_pod_finishes}

module _ {Q W : Type 0} (queue : WorkQueue Q) (m : Machinery) (k : Cluster W) (v : View W)
    (version_of : W → Bytes → Bytes → Option Bytes) (s : IsServer k v) (keyed : ListsByKey k)
    (up : IsUp k v version_of) where
  settled :
      (now : Instant) (x : Bytes) (q q' : Q) (w : W)
      → queue.get q ≡ (item (key x), q')
      → (sync_handler m k now x w).0 ≡ stop
      → process_next_work_item queue m k now q w
        ≡ (true, queue.done (key x) (queue.forget (key x) q'), (sync_handler m k now x w).1)
  unfolding process_next_work_item process_got process_item requeue
  settled now x q q' w h e = rw (h, e) refl

  -- With the API server up and a fresh cache: if the update of a terminated pod is delivered that a
  -- RUNNING At controls and whose name is that of the At's pod, and the queue gives out the key that
  -- the handler adds, then the worker's next round stores DONE, forgets the key, and goes on.
  pub update_finishes :
      (now : Instant) (x ns n : Bytes) (at : At) (pod : Pod) (old : Object) (q q' : Q) (w : W)
      → m.split_key x ≡ some (ns, n)
      → Owns queue m k (a_pod pod) w x
      → IsShown k v version_of ns n at w
      → phase_case at.status.phase ≡ running
      → pod_at m v at w ≡ some pod
      → is_terminated pod ≡ true
      → queue.get (queue.add x q) ≡ (item (key x), q')
      → let u = (sync_handler m k now x w).1 in
        (process_next_work_item queue m k now
            (on_pod_event queue m k (updated old (a_pod pod)) w q)
            w
          ≡ (true, queue.done (key x) (queue.forget (key x) q'), u))
        × (v.phase_of u ns n ≡ some phase_done)
  unfolding on_pod_event
  update_finishes now x ns n at pod old q q' w splits owns h c g t o =
      let (a, b, _) =
        any_pod_finishes m k v version_of s keyed up x ns n splits now at w pod h c g t in
      (
        rw (enqueue_pod_owned queue m k (a_pod pod) w q x owns)
            (settled now x (queue.add x q) q' w o a),
        b,
      )
