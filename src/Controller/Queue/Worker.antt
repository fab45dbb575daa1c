-- ===== src/Controller/Queue/Worker.antt =====
-- The worker loop ends exactly when the queue is shut down.
use kubernetes_programming.Prelude.{ℕ, zero, suc, ◌<◌, some, ◌≡◌, refl, arith, ◌∙◌, sym, subst}
use kubernetes_programming.Clock.{Instant}
use kubernetes_programming.Kube.{Machinery, Cluster}
use kubernetes_programming.Controller.Queue.{
  Got, shutdown, item, Item, WorkQueue, process_item, process_got, process_next_work_item,
  run_worker,
}

some_inj : {A : Type 0} {a b : A} → some a ≡ some b → a ≡ b
some_inj h = cc

module _ {Q W : Type 0} (queue : WorkQueue Q) (m : Machinery) (k : Cluster W)
    (clock : ℕ → Instant) where
  -- From the n-th call on, so many items come off the queue one by one and are processed, and then
  -- Get says that the queue is shut down.
  pub data Serves : ℕ → ℕ → Q → W → Q → W → Type 0 where
    shut : {n : ℕ} {q q' : Q} {w : W} → queue.get q ≡ (shutdown, q') → Serves zero n q w q' w
    serve :
        {c n : ℕ} {q q₁ q' : Q} {w w' : W} {x : Item}
        → queue.get q ≡ (item x, q₁)
        → Serves c
            (suc n)
            (queue.done x (process_item queue m k (clock n) x q₁ w).0)
            (process_item queue m k (clock n) x q₁ w).1
            q'
            w'
        → Serves (suc c) n q w q' w'

  no_fuel :
      (n : ℕ) (q q' : Q) (w w' : W) → run_worker queue m k clock zero n q w ≡ some (q', w') → ⊥
  unfolding run_worker
  no_fuel n q q' w w' h = cc

  -- One round of the loop, by what Get says.
  round_shut :
      (fuel n : ℕ) (q q' : Q) (w : W)
      → queue.get q ≡ (shutdown, q')
      → run_worker queue m k clock (suc fuel) n q w ≡ some (q', w)
  unfolding run_worker process_next_work_item process_got
  round_shut fuel n q q' w h = rw h

  round_item :
      (fuel n : ℕ) (q q' : Q) (w : W) (x : Item)
      → queue.get q ≡ (item x, q')
      → run_worker queue m k clock (suc fuel) n q w
        ≡ run_worker queue m k clock fuel
            (suc n)
            (queue.done x (process_item queue m k (clock n) x q' w).0)
            (process_item queue m k (clock n) x q' w).1
  unfolding run_worker process_next_work_item process_got
  round_item fuel n q q' w x h = rw h

  -- Once the queue has served its items and is shut down the loop has ended: fuel for one round more
  -- than there are items is enough.
  pub run_worker_total :
      (fuel : ℕ) {c n : ℕ} {q q' : Q} {w w' : W}
      → c < fuel
      → Serves c n q w q' w'
      → run_worker queue m k clock fuel n q w ≡ some (q', w')
  run_worker_total zero l s = absurd (omega arith)
  run_worker_total (suc fuel) {n} {q} {q'} {w} l (shut h) = round_shut fuel n q q' w h
  run_worker_total (suc fuel) {n} {q} {q'} {w} l (serve {q₁} {x} h s) =
      round_item fuel n q q₁ w x h ∙ run_worker_total fuel (omega arith) s

  -- The loop ends in no other way.
  pub run_worker_sound :
      (fuel n : ℕ) (q q' : Q) (w w' : W)
      → run_worker queue m k clock fuel n q w ≡ some (q', w')
      → (c : ℕ) × (c < fuel) × Serves c n q w q' w'
  run_worker_sound zero n q q' w w' e = absurd (no_fuel n q q' w w' e)
  run_worker_sound (suc fuel) n q q' w w' e = served (queue.get q) refl (λ x q₁.
      run_worker_sound fuel (suc n) (queue.done x (process_item queue m k (clock n) x q₁ w).0) q'
        (process_item queue m k (clock n) x q₁ w).1 w')
    where
      served :
          (g : Got × Q)
          → queue.get q ≡ g
          → ((x : Item) (q₁ : Q)
              → run_worker queue m k clock fuel
                  (suc n)
                  (queue.done x (process_item queue m k (clock n) x q₁ w).0)
                  (process_item queue m k (clock n) x q₁ w).1
                ≡ some (q', w')
              → (c : ℕ) × (c < fuel)
                × Serves c
                    (suc n)
                    (queue.done x (process_item queue m k (clock n) x q₁ w).0)
                    (process_item queue m k (clock n) x q₁ w).1
                    q'
                    w')
          → (c : ℕ) × (c < suc fuel) × Serves c n q w q' w'
      served (shutdown, q₁) h rest =
          let same : ◌≡◌ {A = Q × W} (q₁, w) (q', w') =
            some_inj (sym (round_shut fuel n q q₁ w h) ∙ e) in
          (0, omega arith, subst (λ (x : Q × W). Serves 0 n q w x.0 x.1) same (shut h))
      served (item x, q₁) h rest =
          let (c, l, s) = rest x q₁ (sym (round_item fuel n q q₁ w x h) ∙ e) in
          (suc c, omega arith, serve h s)
