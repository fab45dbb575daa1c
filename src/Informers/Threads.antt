-- ===== src/Informers/Threads.antt =====
-- factory.go: goroutines that call the methods of one factory at the same time, interleaved access
-- by access. Between Lock and Unlock of sync.Mutex there is at most one of them, so its place in the
-- code stands in the state of the mutex.
pub mod Linear
pub mod Ends
pub mod Quiet
use kubernetes_programming.Prelude.{
  Bytes, true, false, ℕ, ◌+◌, ◌-◌, ◌<◌, ◌==◌, List, [], ◌∷◌, ◌++◌, ◌≡◌, if◌then◌else◌,
}
use kubernetes_programming.Prelude.Maps.{is_set, put}
use kubernetes_programming.Clock.{Duration}
use kubernetes_programming.Informers.{
  InformerLib, SharedInformerFactory, shutdown, informer_returns, informer_for,
}

-- Where the holder of the mutex stands.
pub data Place (l : InformerLib) : Type 0 where
  -- Start: at the test of shuttingDown, at the head of the loop, after wg.Add, and after `go`.
  starting : Place l
  walking : List (Bytes × l.Informer) → Place l
  added : Bytes → l.Informer → List (Bytes × l.Informer) → Place l
  spawned : Bytes → l.Informer → List (Bytes × l.Informer) → Place l
  -- Shutdown: before and after the assignment.
  shutting : Place l
  shut : Place l
  -- InformerFor and the func in WaitForCacheSync.
  asking : Bytes → (l.Client → Duration → l.Informer) → Place l
  collecting : Place l
  -- At the deferred Unlock.
  leaving : Place l

pub data Mutex (l : InformerLib) : Type 0 where
  free : Mutex l
  held : ℕ → Place l → Mutex l

-- A caller of Shutdown after its Unlock.
pub data Stage : Type 0 where
  before waits returned : Stage

-- `live` counts the goroutines of informers that have not come to their deferred wg.Done, and
-- `launched` lists the informers that `go` was said for.
pub record System (l : InformerLib) : Type 0 where
  pub factory : SharedInformerFactory l
  pub mutex : Mutex l
  pub stage : ℕ → Stage
  pub live : ℕ
  pub launched : List (Bytes × l.Informer)

abbrev pub at_stage : (ℕ → Stage) → ℕ → Stage → ℕ → Stage
at_stage stage i x j = if i == j then x else stage j

-- The goroutines at the beginning, none of which has called anything.
abbrev pub at_first : {l : InformerLib} → SharedInformerFactory l → System l
at_first f = record { factory = f; mutex = free; stage = λ i. before; live = 0; launched = [] }

-- One access of one goroutine; `unlock` stands for the Unlock of whichever method it is.
pub data Step {l : InformerLib} (s : System l) : System l → Type 0 where
  lock_start : (i : ℕ) → s.mutex ≡ free → Step s (record s { mutex = held i starting })
  refused :
      {i : ℕ}
      → s.mutex ≡ held i starting
      → s.factory.shutting_down ≡ true
      → Step s (record s { mutex = held i leaving })
  walks :
      {i : ℕ}
      → s.mutex ≡ held i starting
      → s.factory.shutting_down ≡ false
      → Step s (record s { mutex = held i (walking s.factory.informers) })
  skips :
      {i : ℕ} {t : Bytes} {j : l.Informer} {more : List (Bytes × l.Informer)}
      → s.mutex ≡ held i (walking ((t, j) ∷ more))
      → is_set s.factory.started_informers t ≡ true
      → Step s (record s { mutex = held i (walking more) })
  adds :
      {i : ℕ} {t : Bytes} {j : l.Informer} {more : List (Bytes × l.Informer)}
      → s.mutex ≡ held i (walking ((t, j) ∷ more))
      → is_set s.factory.started_informers t ≡ false
      → Step s (record s {
        mutex = held i (added t j more);
        factory = record s.factory { wg = s.factory.wg + 1 };
      })
  spawns :
      {i : ℕ} {t : Bytes} {j : l.Informer} {more : List (Bytes × l.Informer)}
      → s.mutex ≡ held i (added t j more)
      → Step s (record s {
        mutex = held i (spawned t j more);
        live = s.live + 1;
        launched = s.launched ++ (t, j) ∷ [];
      })
  marks :
      {i : ℕ} {t : Bytes} {j : l.Informer} {more : List (Bytes × l.Informer)}
      → s.mutex ≡ held i (spawned t j more)
      → Step s (record s {
        mutex = held i (walking more);
        factory = record s.factory { started_informers = put s.factory.started_informers t true };
      })
  walked : {i : ℕ} → s.mutex ≡ held i (walking []) → Step s (record s { mutex = held i leaving })
  lock_shutdown : (i : ℕ) → s.mutex ≡ free → Step s (record s { mutex = held i shutting })
  shuts :
      {i : ℕ}
      → s.mutex ≡ held i shutting
      → Step s (record s { mutex = held i shut; factory = shutdown l s.factory })
  unlock_shutdown :
      {i : ℕ}
      → s.mutex ≡ held i shut
      → Step s (record s { mutex = free; stage = at_stage s.stage i waits })
  -- wg.Wait lets the caller go on when the counter is zero.
  wait :
      {i : ℕ}
      → s.stage i ≡ waits
      → s.factory.wg ≡ 0
      → Step s (record s { stage = at_stage s.stage i returned })
  lock_informer_for :
      (i : ℕ) (t : Bytes) (new_func : l.Client → Duration → l.Informer)
      → s.mutex ≡ free
      → Step s (record s { mutex = held i (asking t new_func) })
  asks :
      {i : ℕ} {t : Bytes} {new_func : l.Client → Duration → l.Informer}
      → s.mutex ≡ held i (asking t new_func)
      → Step s
          (record s { mutex = held i leaving; factory = (informer_for l t new_func s.factory).1 })
  lock_wait : (i : ℕ) → s.mutex ≡ free → Step s (record s { mutex = held i collecting })
  collects : {i : ℕ} → s.mutex ≡ held i collecting → Step s (record s { mutex = held i leaving })
  unlock : {i : ℕ} → s.mutex ≡ held i leaving → Step s (record s { mutex = free })
  -- An informer's Run has returned, and its goroutine says wg.Done.
  done :
      0 < s.live → Step s (record s { live = s.live - 1; factory = informer_returns l s.factory })

pub data Reach {l : InformerLib} (s : System l) : System l → Type 0 where
  here : Reach s s
  next : {t u : System l} → Reach s t → Step t u → Reach s u
