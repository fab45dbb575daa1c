-- ===== src/Controller/Examples/Stops.antt =====
-- Run with two workers, on a queue in memory that ignores what is added once it is shut down.
use kubernetes_programming.Prelude.{
  none, Bool, true, false, ℕ, suc, ◌+◌, List, [], ◌∷◌, ◌++◌, some, ◌≡◌, refl, arith, Bytes, ◌⊎◌,
  inl, inr,
}
use kubernetes_programming.Clock.{Instant}
use kubernetes_programming.Kube.Memory.{Memory, memory, machinery}
use kubernetes_programming.Controller.Queue.{Item, Got, shutdown, item, WorkQueue, run_worker}
use kubernetes_programming.Controller.Run.{Lifecycle, run}
use kubernetes_programming.Controller.Run.Stop.{Ends, run-Ends, IsDraining, run_drains}
use kubernetes_programming.Controller.Examples.{key, due, no_pods, world}

record Drain : Type 0 where
  waiting : List Item
  shut : Bool

abbrev get_waiting : List Item → Drain → Got × Drain
get_waiting [] q = (shutdown, q)
get_waiting (x ∷ xs) q = (item x, record q { waiting = xs })

abbrev add_unless : Bool → Bytes → Drain → Drain
add_unless false s q = record q { waiting = q.waiting ++ Item.key s ∷ [] }
add_unless true s q = q

abbrev queue : WorkQueue Drain
queue = record {
  get = λ q. get_waiting q.waiting q;
  done = λ x q. q;
  forget = λ x q. q;
  add = λ s q. add_unless q.shut s q;
  add_rate_limited = λ s q. add_unless q.shut s q;
  add_after = λ s d q. add_unless q.shut s q;
}

abbrev count : List Item → ℕ
count [] = 0
count (x ∷ xs) = suc (count xs)

abbrev IsShut : Drain → Type 0
IsShut q = q.shut ≡ true

abbrev pending : Drain → ℕ
pending q = count q.waiting

-- A worker takes the first key off the queue when it starts; a key is added until the stop.
abbrev lifecycle : Lifecycle Drain Memory
lifecycle = record {
  wait_for_cache_sync = λ c q w. (true, q, w);
  go_worker = λ q w. ((get_waiting q.waiting q).1, w);
  receive_stop = λ q w. (add_unless q.shut key q, w);
  shut_down = λ q. record q { shut = true };
}

get_waiting_one :
    (xs : List Item) (q : Drain)
    → q.shut ≡ true
    → ((q' : Drain) × (get_waiting xs q ≡ (shutdown, q')))
      ⊎ ((x : Item) × (q' : Drain) × (get_waiting xs q ≡ (item x, q'))
          × (q'.shut ≡ true)
          × (count xs ≡ suc (count q'.waiting)))
get_waiting_one [] q h = inl (q, refl)
get_waiting_one (x ∷ xs) q h = inr (x, record q { waiting = xs }, refl, h, refl)

add_when_shut : (b : Bool) (s : Bytes) (q : Drain) → b ≡ true → add_unless b s q ≡ q
add_when_shut true s q h = refl
add_when_shut false s q h = cc

added :
    (s : Bytes) (q : Drain)
    → IsShut q
    → IsShut (add_unless q.shut s q) × (pending (add_unless q.shut s q) ≡ pending q)
added s q h = rw (add_when_shut q.shut s q h) (h, refl)

queue-IsDraining : IsDraining queue lifecycle.shut_down IsShut pending
queue-IsDraining = record {
  shuts = λ q. refl;
  get = λ q h. get_waiting_one q.waiting q h;
  done = λ x q h. (h, refl);
  forget = λ x q h. (h, refl);
  limited = λ s q h. added s q h;
  after = λ s d q h. added s q h;
}

abbrev waiting_three : Drain
waiting_three = record { waiting = Item.key key ∷ Item.invalid 0 ∷ Item.key key ∷ []; shut = false }

run-Ends_example :
    Ends lifecycle 2 waiting_three
      (world [] no_pods)
      (run lifecycle 2 waiting_three (world [] no_pods))
run-Ends_example = run-Ends lifecycle 2 waiting_three (world [] no_pods)

-- The queue and the world when Run has returned.
abbrev after_run : Drain × Memory
after_run = let (e, q, w) = run lifecycle 2 waiting_three (world [] no_pods) in (q, w)

-- One key is left and one was added before the stop.
two_left : pending after_run.0 ≡ 2
unfolding run
two_left = refl

abbrev clock : ℕ → Instant
clock n = due + n

run_drains_example :
    (q : Drain) × (w : Memory) × (run_worker queue machinery memory clock 3 0 after_run.0
        after_run.1
      ≡ some (q, w))
unfolding run
run_drains_example =
    run_drains lifecycle queue IsShut pending queue-IsDraining machinery memory clock 2 3 0
      waiting_three after_run.0 (world [] no_pods) after_run.1 none refl (omega arith)
