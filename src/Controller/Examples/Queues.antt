-- ===== src/Controller/Examples/Queues.antt =====
-- A worker over a queue in memory.
use kubernetes_programming.Prelude.{
  Bytes, Bool, true, false, ℕ, suc, ◌+◌, ◌<◌, List, [], ◌∷◌, some, ◌≡◌, refl, arith, str_eq,
  str_eq_refl, str_eq→eq, Bool-cases, inl, inr, ◌∙◌, if◌then◌else◌, ◌||◌, ◌++◌,
}
use kubernetes_programming.Clock.{Instant, sub, run_parse}
use kubernetes_programming.Kube.Memory.{Memory, memory, machinery, find_at}
use kubernetes_programming.Text.{split}
use kubernetes_programming.Api.{phase_case, deep_equal}
use kubernetes_programming.Controller.{
  sync_handler, from_key, from_lister, sync_at, default_phase, switch, pending_case, after_schedule,
  time_until_schedule, save, updated,
}
use kubernetes_programming.Controller.Queue.{
  Item, Got, shutdown, item, WorkQueue, process_item, process_next_work_item, run_worker,
}
use kubernetes_programming.Controller.Queue.Outcome.{
  QueueView, Comes, at_once, after_item, elapsed, IsWorkQueue, KeyFate, process_key,
}
use kubernetes_programming.Controller.Queue.Worker.{
  Serves, shut, serve, run_worker_total, run_worker_sound,
}
use kubernetes_programming.Controller.Examples.{key, due, no_pods, world}

-- Items to be got, keys that will be added later, and failures by key. It is shut down when no item
-- is left.
pub record Items : Type 0 where
  pub waiting : List Item
  pub later : List Bytes
  pub count : Bytes → ℕ

abbrev get_item : List Item → Items → Got × Items
get_item [] q = (shutdown, q)
get_item (x ∷ xs) q = (item x, record q { waiting = xs })

abbrev set_count : Bytes → ℕ → Items → Items
set_count s c q = record q { count = λ t. if str_eq s t then c else q.count t }

abbrev forgotten : Item → Items → Items
forgotten (Item.key s) q = set_count s 0 q
forgotten (Item.invalid _) q = q

abbrev pub queue : WorkQueue Items
queue = record {
  get = λ q. get_item q.waiting q;
  done = λ x q. q;
  forget = forgotten;
  add = λ s q. record q { waiting = q.waiting ++ Item.key s ∷ [] };
  add_rate_limited = λ s q. set_count s (suc (q.count s)) (record q { later = s ∷ q.later });
  add_after = λ s d q. record q { later = s ∷ q.later };
}

abbrev is_in : List Bytes → Bytes → Bool
is_in [] s = false
is_in (t ∷ ts) s = str_eq t s || is_in ts s

abbrev is_waiting : List Item → Bytes → Bool
is_waiting [] s = false
is_waiting (Item.key t ∷ xs) s = str_eq t s || is_waiting xs s
is_waiting (Item.invalid _ ∷ xs) s = is_waiting xs s

-- With time, what was added for later is waiting.
abbrev keys : List Bytes → List Item
keys [] = []
keys (s ∷ ss) = Item.key s ∷ keys ss

abbrev view : QueueView Items
view = record {
  is_open = λ q. true;
  elapse = λ q. record q { waiting = keys q.later ++ q.waiting; later = [] };
  scheduled = λ q s. is_in q.later s || is_waiting q.waiting s;
  failures = λ q s. q.count s;
}

is_waiting-keys :
    (ss : List Bytes) (xs : List Item) (s : Bytes)
    → is_waiting (keys ss ++ xs) s ≡ (is_in ss s || is_waiting xs s)
is_waiting-keys [] xs s = refl
is_waiting-keys (t ∷ ss) xs s = ground (arith, is_waiting-keys ss xs s)

waiting-Comes :
    (xs : List Item) (s : Bytes) (q : Items)
    → q.waiting ≡ xs
    → is_waiting xs s ≡ true
    → Comes queue view s q
waiting-Comes [] s q e h = cc
waiting-Comes (Item.invalid i ∷ xs) s q e h =
    after_item {x = Item.invalid i} {q' = record q { waiting = xs }} (rw e refl)
      (waiting-Comes xs s (record q { waiting = xs }) refl h)
waiting-Comes (Item.key t ∷ xs) s q e h = elim (Bool-cases (str_eq t s)) [
  | inl y ↦ at_once {q' = record q { waiting = xs }} (rw (e, str_eq→eq t s y) refl)
  | inr y ↦
      after_item {x = Item.key t} {q' = record q { waiting = xs }} (rw e refl)
        (waiting-Comes xs s (record q { waiting = xs }) refl (ground (arith, h, y)))
]

queue-IsWorkQueue : IsWorkQueue queue view
queue-IsWorkQueue = record {
  comes = λ s q o h.
      elapsed (waiting-Comes _ s (view.elapse q) refl (is_waiting-keys q.later q.waiting s ∙ h));
  limited_open = λ s q. refl;
  after_open = λ s d q. refl;
  done_open = λ x q. refl;
  limited_scheduled = λ s q o. rw (str_eq_refl s);
  limited_failures = λ s q. rw (str_eq_refl s);
  after_scheduled = λ s d q o. rw (str_eq_refl s);
  after_failures = λ s d q. refl;
  forget_scheduled = λ s q. refl;
  forget_failures = λ s q. rw (str_eq_refl s);
  done_scheduled = λ x s q. refl;
  done_failures = λ x s q. refl;
}

abbrev one_key : Items
one_key = record { waiting = Item.key key ∷ []; later = []; count = λ s. 2 }

abbrev taken : Items
taken = record { waiting = []; later = []; count = λ s. 2 }

process_key_example :
    let (more, q, w) =
      process_next_work_item queue machinery memory due one_key (world [] no_pods) in
    let (r, u) = sync_handler machinery memory due key (world [] no_pods) in
    (more ≡ true) × (w ≡ u) × KeyFate queue view key taken q r
process_key_example =
    process_key queue view queue-IsWorkQueue machinery memory due one_key taken (world [] no_pods)
      key refl refl

abbrev clock : ℕ → Instant
clock n = due + n

abbrev after_one : Items × Memory
after_one = process_item queue machinery memory (clock 0) (Item.key key) taken (world [] no_pods)

-- The worker settles the key and then finds the queue shut down.
serves : Serves queue machinery memory clock 1 0 one_key (world [] no_pods) after_one.0 after_one.1
unfolding process_item sync_handler from_key from_lister sync_at default_phase switch pending_case
    after_schedule time_until_schedule sub save updated split find_at str_eq phase_case deep_equal
    run_parse
serves = serve refl (shut refl)

run_worker_total_example :
    run_worker queue machinery memory clock 2 0 one_key (world [] no_pods)
    ≡ some (after_one.0, after_one.1)
run_worker_total_example = run_worker_total queue machinery memory clock 2 (omega arith) serves

run_worker_sound_example :
    (c : ℕ) × (c < 2)
    × Serves queue machinery memory clock c 0 one_key (world [] no_pods) after_one.0 after_one.1
run_worker_sound_example =
    run_worker_sound queue machinery memory clock 2 0 one_key after_one.0 (world [] no_pods)
      after_one.1 run_worker_total_example
