-- ===== src/Controller/Queue/Outcome.antt =====
-- No key is lost: what the queue holds of a key after it has been processed.
use kubernetes_programming.Prelude.{
  Bytes, Bool, true, false, ℕ, suc, Option, none, some, ◌≡◌, ◌≢◌, refl, arith, ◌⊎◌, inl, inr,
  Bool-cases, ap, ◌∙◌,
}
use kubernetes_programming.Prelude.Int.{pos, negsuc}
use kubernetes_programming.Clock.{Instant, Duration, is_zero}
use kubernetes_programming.Kube.{Machinery, Cluster}
use kubernetes_programming.Controller.{Err, SyncResult, sync_handler}
use kubernetes_programming.Controller.Queue.{
  Item, key, item, WorkQueue, requeue, process_item, process_got, process_next_work_item,
}

-- What can be asked of a queue: whether it is not shut down, whether a key is queued, delayed or marked
-- for when its item in hand is done, and how many failures the rate limiter counts for it
-- (NumRequeues). `elapse` is what time and the other workers do to it until more can come off.
pub record QueueView (Q : Type 0) : Type 0 where
  pub is_open : Q → Bool
  pub elapse : Q → Q
  pub scheduled : Q → Bytes → Bool
  pub failures : Q → Bytes → ℕ

-- The key comes off the queue: at once, after others that are done with, or when time has passed.
pub data Comes {Q : Type 0} (queue : WorkQueue Q) (v : QueueView Q) (s : Bytes) : Q → Type 0 where
  at_once : {q q' : Q} → queue.get q ≡ (item (key s), q') → Comes queue v s q
  after_item :
      {x : Item} {q q' : Q}
      → queue.get q ≡ (item x, q')
      → Comes queue v s (queue.done x q')
      → Comes queue v s q
  elapsed : {q : Q} → Comes queue v s (v.elapse q) → Comes queue v s q

-- The documented behaviour of the queue. Once it is shut down, what is added is ignored.
pub record IsWorkQueue {Q : Type 0} (queue : WorkQueue Q) (v : QueueView Q) : Type 0 where
  pub comes : (s : Bytes) (q : Q) → v.is_open q ≡ true → v.scheduled q s ≡ true → Comes queue v s q
  pub limited_open : (s : Bytes) (q : Q) → v.is_open (queue.add_rate_limited s q) ≡ v.is_open q
  pub after_open :
      (s : Bytes) (d : Duration) (q : Q) → v.is_open (queue.add_after s d q) ≡ v.is_open q
  pub done_open : (x : Item) (q : Q) → v.is_open (queue.done x q) ≡ v.is_open q
  pub limited_scheduled :
      (s : Bytes) (q : Q) → v.is_open q ≡ true → v.scheduled (queue.add_rate_limited s q) s ≡ true
  pub limited_failures :
      (s : Bytes) (q : Q) → v.failures (queue.add_rate_limited s q) s ≡ suc (v.failures q s)
  pub after_scheduled :
      (s : Bytes) (d : Duration) (q : Q)
      → v.is_open q ≡ true
      → v.scheduled (queue.add_after s d q) s ≡ true
  pub after_failures :
      (s : Bytes) (d : Duration) (q : Q) → v.failures (queue.add_after s d q) s ≡ v.failures q s
  pub forget_scheduled :
      (s : Bytes) (q : Q) → v.scheduled (queue.forget (key s) q) s ≡ v.scheduled q s
  pub forget_failures : (s : Bytes) (q : Q) → v.failures (queue.forget (key s) q) s ≡ 0
  pub done_scheduled :
      (x : Item) (s : Bytes) (q : Q) → v.scheduled (queue.done x q) s ≡ v.scheduled q s
  pub done_failures :
      (x : Item) (s : Bytes) (q : Q) → v.failures (queue.done x q) s ≡ v.failures q s

-- The three ends of a call of the sync handler, and what is known of the key afterwards, the queue
-- being `q` before and `q'` after.
pub data KeyFate {Q : Type 0} (queue : WorkQueue Q) (v : QueueView Q) (s : Bytes) (q q' : Q)
    : SyncResult → Type 0 where
  retried :
      {r : SyncResult} (e : Err)
      → r.error ≡ some e
      → Comes queue v s q'
      → v.failures q' s ≡ suc (v.failures q s)
      → KeyFate queue v s q q' r
  delayed :
      {r : SyncResult}
      → r.error ≡ none
      → r.when ≢ pos 0
      → Comes queue v s q'
      → v.failures q' s ≡ v.failures q s
      → KeyFate queue v s q q' r
  settled :
      {r : SyncResult}
      → r.error ≡ none
      → r.when ≡ pos 0
      → v.scheduled q' s ≡ v.scheduled q s
      → v.failures q' s ≡ 0
      → KeyFate queue v s q q' r

is_zero_iff : (d : Duration) → is_zero d ≡ true → d ≡ pos 0
is_zero_iff (pos n) h = ground arith
is_zero_iff (negsuc n) h = cc

module _ {Q W : Type 0} (queue : WorkQueue Q) (v : QueueView Q) (laws : IsWorkQueue queue v)
    (m : Machinery) (k : Cluster W) where
  requeue-fate :
      (s : Bytes) (q : Q) (r : SyncResult)
      → v.is_open q ≡ true
      → KeyFate queue v s q (queue.done (key s) (requeue queue m k s r.error r.when q)) r
  unfolding requeue
  requeue-fate s q r o = go r.error refl (Bool-cases (is_zero r.when))
    where
      go :
          (e : Option Err)
          → r.error ≡ e
          → (is_zero r.when ≡ true) ⊎ (is_zero r.when ≡ false)
          → KeyFate queue v s q (queue.done (key s) (requeue queue m k s e r.when q)) r
      go (some e) h _ =
          retried e h
            (laws.comes s _ (laws.done_open (key s) _ ∙ laws.limited_open s q ∙ o)
              (laws.done_scheduled (key s) s _ ∙ laws.limited_scheduled s q o))
            (rw laws.done_failures (laws.limited_failures s q))
      go none h (inl z) =
          settled h (is_zero_iff r.when z)
            (rw z (rw laws.done_scheduled (laws.forget_scheduled s q)))
            (rw z (rw laws.done_failures (laws.forget_failures s q)))
      go none h (inr z) =
          delayed h (λ e. cc (z, ap is_zero e))
            (rw z (
              laws.comes s _ (laws.done_open (key s) _ ∙ laws.after_open s r.when q ∙ o)
                (laws.done_scheduled (key s) s _ ∙ laws.after_scheduled s r.when q o)))
            (rw z (rw laws.done_failures (laws.after_failures s r.when q)))

  -- When a key comes off a queue that is not shut down, the worker goes on and the world is the one
  -- that the sync handler leaves. A key whose sync failed comes off the queue again, with time, and
  -- has one failure more; a key that has to wait comes off again, with time, and keeps its failures; a
  -- key that is settled has its failures forgotten and is scheduled only if something else has added
  -- it.
  pub process_key :
      (now : Instant) (q q' : Q) (w : W) (s : Bytes)
      → queue.get q ≡ (item (key s), q')
      → v.is_open q' ≡ true
      → let (more, q'', w') = process_next_work_item queue m k now q w in
        let (r, u) = sync_handler m k now s w in
        (more ≡ true) × (w' ≡ u) × KeyFate queue v s q' q'' r
  unfolding process_next_work_item process_got process_item
  process_key now q q' w s h o = rw h (refl, refl, requeue-fate s q' (sync_handler m k now s w).0 o)
