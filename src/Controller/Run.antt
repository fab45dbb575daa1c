-- ===== src/Controller/Run.antt =====
-- controller.go: `Run`, from the wait for the caches to the shutdown of the queue.
pub mod Stop
use kubernetes_programming.Prelude.{Bool, true, false, ℕ, zero, suc, Option, none, some}

-- The caches that are waited for.
pub data Cache : Type 0 where
  ats pods : Cache

-- What Run calls, over the state of the queue and of the world: cache.WaitForCacheSync, `go
-- wait.Until(c.runWorker, time.Second, stopCh)`, the receive from stopCh, during which the workers
-- run, and the queue's ShutDown.
pub record Lifecycle (Q W : Type 0) : Type 0 where
  pub wait_for_cache_sync : Cache → Q → W → Bool × Q × W
  pub go_worker : Q → W → Q × W
  pub receive_stop : Q → W → Q × W
  pub shut_down : Q → Q

pub data RunError : Type 0 where
  caches_not_synced : RunError

module _ {Q W : Type 0} (l : Lifecycle Q W) where
  -- The loop that launches the workers; a negative threadiness launches none, as 0 does.
  unfoldable pub go_workers : ℕ → Q → W → Q × W
  go_workers zero q w = (q, w)
  go_workers (suc n) q w = let (q', w') = l.go_worker q w in go_workers n q' w'

  unfoldable pub until_stop : ℕ → Q → W → Option RunError × Q × W
  unfolding go_workers
  until_stop threadiness q w =
      let (q', w') = go_workers threadiness q w in
      let (q'', w'') = l.receive_stop q' w' in (none, q'', w'')

  unfoldable pub after_pods : ℕ → Bool × Q × W → Option RunError × Q × W
  unfolding until_stop
  after_pods threadiness (false, q, w) = (some caches_not_synced, q, w)
  after_pods threadiness (true, q, w) = until_stop threadiness q w

  unfoldable pub after_ats : ℕ → Bool × Q × W → Option RunError × Q × W
  unfolding after_pods
  after_ats threadiness (false, q, w) = (some caches_not_synced, q, w)
  after_ats threadiness (true, q, w) = after_pods threadiness (l.wait_for_cache_sync pods q w)

  -- The deferred ShutDown comes last, whatever the body returns.
  unfoldable pub run : ℕ → Q → W → Option RunError × Q × W
  unfolding after_ats
  run threadiness q w =
      let (e, q', w') = after_ats threadiness (l.wait_for_cache_sync ats q w) in
      (e, l.shut_down q', w')
