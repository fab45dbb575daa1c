-- ===== src/Controller/Queue.antt =====
-- controller.go: `processNextWorkItem` and `runWorker` over client-go's rate limited queue, which is
-- an interface.
pub mod Outcome
pub mod Worker
use kubernetes_programming.Prelude.{
  Bytes, Bool, true, false, ℕ, zero, suc, Option, none, some, if◌then◌else◌,
}
use kubernetes_programming.Clock.{Instant, Duration, is_zero}
use kubernetes_programming.Kube.{Machinery, Cluster}
use kubernetes_programming.Controller.{Err, sync_handler}

-- What comes off the queue: a string, or something else that was put there by mistake.
pub data Item : Type 0 where
  key : Bytes → Item
  invalid : ℕ → Item

-- Get returns an item, or says that the queue is shut down.
pub data Got : Type 0 where
  shutdown : Got
  item : Item → Got

-- workqueue.RateLimitingInterface.
pub record WorkQueue (Q : Type 0) : Type 0 where
  pub get : Q → Got × Q
  pub done : Item → Q → Q
  pub forget : Item → Q → Q
  pub add : Bytes → Q → Q
  pub add_rate_limited : Bytes → Q → Q
  pub add_after : Bytes → Duration → Q → Q

module _ {Q W : Type 0} (queue : WorkQueue Q) (m : Machinery) (k : Cluster W) where
  -- What follows the call of the sync handler on a key.
  unfoldable pub requeue : Bytes → Option Err → Duration → Q → Q
  requeue s (some e) when q = queue.add_rate_limited s q
  requeue s none when q = if is_zero when then queue.forget (key s) q else queue.add_after s when q

  -- The body of the func that defers Done.
  unfoldable pub process_item : Instant → Item → Q → W → Q × W
  unfolding requeue
  process_item now (invalid n) q w = (queue.forget (invalid n) q, w)
  process_item now (key s) q w =
      let (r, w') = sync_handler m k now s w in (requeue s r.error r.when q, w')

  unfoldable pub process_got : Instant → Got × Q → W → Bool × Q × W
  unfolding process_item
  process_got now (shutdown, q) w = (false, q, w)
  process_got now (item x, q) w =
      let (q', w') = process_item now x q w in (true, queue.done x q', w')

  unfoldable pub process_next_work_item : Instant → Q → W → Bool × Q × W
  unfolding process_got
  process_next_work_item now q w = process_got now (queue.get q) w

  -- `for c.processNextWorkItem() {}`, the n-th call at the instant `clock n`; `none` means that the
  -- fuel ran out before the queue was shut down.
  unfoldable pub run_worker : (ℕ → Instant) → ℕ → ℕ → Q → W → Option (Q × W)
  run_worker clock zero n q w = none
  run_worker clock (suc fuel) n q w =
      let (more, q', w') = process_next_work_item (clock n) q w in
      let rest = run_worker clock fuel (suc n) q' w' in if more then rest else some (q', w')
