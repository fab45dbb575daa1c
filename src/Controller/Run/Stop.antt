-- ===== src/Controller/Run/Stop.antt =====
-- How Run ends, and that the workers end after it.
use kubernetes_programming.Prelude.{
  subst, ap, Bool, true, false, ℕ, zero, suc, ◌<◌, ◌≤◌, ◌⊎◌, arith, Option, none, some, ◌≡◌, refl,
  Bytes, inl, inr, Bool-cases,
}
use kubernetes_programming.Clock.{Instant, Duration, is_zero}
use kubernetes_programming.Kube.{Machinery, Cluster}
use kubernetes_programming.Controller.{Err, sync_handler}
use kubernetes_programming.Controller.Queue.{
  Item, shutdown, item, WorkQueue, requeue, process_item, run_worker,
}
use kubernetes_programming.Controller.Queue.Worker.{Serves, shut, serve, run_worker_total}
use kubernetes_programming.Controller.Run.{
  ats, pods, Lifecycle, RunError, caches_not_synced, go_workers, until_stop, after_pods, after_ats,
  run,
}

module _ {Q W : Type 0} (l : Lifecycle Q W) where
  -- So many workers have been launched, one after the other.
  pub data Launched : ℕ → Q → W → Q → W → Type 0 where
    launched : {q : Q} {w : W} → Launched zero q w q w
    launches :
        {n : ℕ} {q q₁ q' : Q} {w w₁ w' : W}
        → l.go_worker q w ≡ (q₁, w₁)
        → Launched n q₁ w₁ q' w'
        → Launched (suc n) q w q' w'

  go_workers-Launched :
      (n : ℕ) (q : Q) (w : W) → let (q', w') = go_workers l n q w in Launched n q w q' w'
  unfolding go_workers
  go_workers-Launched zero q w = launched
  go_workers-Launched (suc n) q w = launches refl (go_workers-Launched n _ _)

  -- The three ends of Run.
  pub data Ends (threadiness : ℕ) (q : Q) (w : W) : Option RunError × Q × W → Type 0 where
    no_ats :
        {q₁ : Q} {w₁ : W}
        → l.wait_for_cache_sync ats q w ≡ (false, q₁, w₁)
        → Ends threadiness q w (some caches_not_synced, l.shut_down q₁, w₁)
    no_pods :
        {q₁ q₂ : Q} {w₁ w₂ : W}
        → l.wait_for_cache_sync ats q w ≡ (true, q₁, w₁)
        → l.wait_for_cache_sync pods q₁ w₁ ≡ (false, q₂, w₂)
        → Ends threadiness q w (some caches_not_synced, l.shut_down q₂, w₂)
    stopped :
        {q₁ q₂ q₃ q₄ : Q} {w₁ w₂ w₃ w₄ : W}
        → l.wait_for_cache_sync ats q w ≡ (true, q₁, w₁)
        → l.wait_for_cache_sync pods q₁ w₁ ≡ (true, q₂, w₂)
        → Launched threadiness q₂ w₂ q₃ w₃
        → l.receive_stop q₃ w₃ ≡ (q₄, w₄)
        → Ends threadiness q w (none, l.shut_down q₄, w₄)

  after_pods-Ends :
      (n : ℕ) (q q₁ : Q) (w w₁ : W) (x : Bool × Q × W)
      → l.wait_for_cache_sync ats q w ≡ (true, q₁, w₁)
      → l.wait_for_cache_sync pods q₁ w₁ ≡ x
      → let (e, q', w') = after_pods l n x in Ends n q w (e, l.shut_down q', w')
  unfolding after_pods until_stop
  after_pods-Ends n q q₁ w w₁ (false, q₂, w₂) h k = no_pods h k
  after_pods-Ends n q q₁ w w₁ (true, q₂, w₂) h k = stopped h k (go_workers-Launched n _ _) refl

  after_ats-Ends :
      (n : ℕ) (q : Q) (w : W) (x : Bool × Q × W)
      → l.wait_for_cache_sync ats q w ≡ x
      → let (e, q', w') = after_ats l n x in Ends n q w (e, l.shut_down q', w')
  unfolding after_ats
  after_ats-Ends n q w (false, q₁, w₁) h = no_ats h
  after_ats-Ends n q w (true, q₁, w₁) h = after_pods-Ends n q q₁ w w₁ _ h refl

  -- Run is an error exactly if one of the caches does not sync, the one of the Ats being waited for
  -- first. Otherwise it launches as many workers as it is told, waits for the stop channel, and
  -- succeeds. In each case the queue is shut down, and that is the last thing that happens.
  pub run-Ends : (threadiness : ℕ) (q : Q) (w : W) → Ends threadiness q w (run l threadiness q w)
  unfolding run
  run-Ends threadiness q w = after_ats-Ends threadiness q w _ refl

-- The documented behaviour of a queue that is shut down: what is added is ignored; Get gives out an
-- item that is pending, which takes it off those, or says that the queue is shut down; and Done puts
-- back an item that was added again while it was processed. `pending` counts the items that wait to be
-- processed, those included that Done will put back.
pub record IsDraining {Q : Type 0} (queue : WorkQueue Q) (shut_down : Q → Q) (IsShut : Q → Type 0)
    (pending : Q → ℕ) : Type 0 where
  pub shuts : (q : Q) → IsShut (shut_down q)
  pub get :
      (q : Q)
      → IsShut q
      → ((q' : Q) × (queue.get q ≡ (shutdown, q')))
        ⊎ ((x : Item) × (q' : Q) × (queue.get q ≡ (item x, q'))
            × IsShut q'
            × (pending q ≡ suc (pending q')))
  pub done :
      (x : Item) (q : Q)
      → IsShut q
      → IsShut (queue.done x q) × (pending (queue.done x q) ≡ pending q)
  pub forget :
      (x : Item) (q : Q)
      → IsShut q
      → IsShut (queue.forget x q) × (pending (queue.forget x q) ≡ pending q)
  pub limited :
      (s : Bytes) (q : Q)
      → IsShut q
      → IsShut (queue.add_rate_limited s q) × (pending (queue.add_rate_limited s q) ≡ pending q)
  pub after :
      (s : Bytes) (d : Duration) (q : Q)
      → IsShut q
      → IsShut (queue.add_after s d q) × (pending (queue.add_after s d q) ≡ pending q)

module _ {Q W : Type 0} (l : Lifecycle Q W) (queue : WorkQueue Q) (IsShut : Q → Type 0)
    (pending : Q → ℕ) (draining : IsDraining queue l.shut_down IsShut pending) (m : Machinery)
    (k : Cluster W) (clock : ℕ → Instant) where
  abbrev Kept : Q → Q → Type 0
  Kept q q' = IsShut q' × (pending q' ≡ pending q)

  requeue-Kept :
      (s : Bytes) (e : Option Err) (d : Duration) (q : Q)
      → IsShut q
      → Kept q (requeue queue m k s e d q)
  unfolding requeue
  requeue-Kept s (some e) d q h = draining.limited s q h
  requeue-Kept s none d q h = elim (Bool-cases (is_zero d)) [
    | inl z ↦ rw z (draining.forget (Item.key s) q h)
    | inr z ↦ rw z (draining.after s d q h)
  ]

  process_item-Kept :
      (now : Instant) (x : Item) (q : Q) (w : W)
      → IsShut q
      → Kept q (process_item queue m k now x q w).0
  unfolding process_item
  process_item-Kept now (Item.invalid i) q w h = draining.forget (Item.invalid i) q h
  process_item-Kept now (Item.key s) q w h =
      let (r, w') = sync_handler m k now s w in requeue-Kept s r.error r.when q h

  served :
      (c n : ℕ) (q : Q) (w : W)
      → IsShut q
      → pending q ≤ c
      → ((q' : Q) × (queue.get q ≡ (shutdown, q')))
        ⊎ ((x : Item) × (q' : Q) × (queue.get q ≡ (item x, q'))
            × IsShut q'
            × (pending q ≡ suc (pending q')))
      → (d : ℕ) × (q' : Q) × (w' : W) × (d ≤ c) × Serves queue m k clock d n q w q' w'
  served c n q w h e (inl (q', g)) = (0, q', w, omega arith, shut g)
  served zero n q w h e (inr (x, q₁, g, h₁, e₁)) = absurd (omega (arith, e, e₁))
  served (suc c) n q w h e (inr (x, q₁, g, h₁, e₁)) =
      let (h₂, e₂) = process_item-Kept (clock n) x q₁ w h₁ in
      let (h₃, e₃) = draining.done x (process_item queue m k (clock n) x q₁ w).0 h₂ in
      let r = queue.done x (process_item queue m k (clock n) x q₁ w).0 in
      let (d, q', w', b, s) =
        served c (suc n) r (process_item queue m k (clock n) x q₁ w).1 h₃
          (omega (arith, e, e₁, e₂, e₃)) (draining.get r h₃) in
      (suc d, q', w', omega arith, serve g s)

  -- Once Run has returned, with or without an error, a worker loop comes to its end: it has at most one
  -- round more than items were pending when the queue was shut down, those included that other workers
  -- have in hand and that were added again, whatever their syncs do.
  pub run_drains :
      (threadiness fuel n : ℕ) (q q₁ : Q) (w w₁ : W) (e : Option RunError)
      → run l threadiness q w ≡ (e, q₁, w₁)
      → pending q₁ < fuel
      → (q' : Q) × (w' : W) × (run_worker queue m k clock fuel n q₁ w₁ ≡ some (q', w'))
  unfolding run
  run_drains threadiness fuel n q q₁ w w₁ e h b =
      let ended : IsShut q₁ =
        subst IsShut (ap (λ (x : Option RunError × Q × W). x.1) h) (draining.shuts _) in
      let (d, q', w', c, s) =
        served (pending q₁) n q₁ w₁ ended (omega arith) (draining.get q₁ ended) in
      (q', w', run_worker_total queue m k clock fuel (omega (arith, b, c)) s)
