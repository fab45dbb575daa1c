-- ===== src/Informers/Examples/Runs.antt =====
-- Three goroutines over one factory: Start, InformerFor and Shutdown.
use kubernetes_programming.Prelude.{true, false, [], ◌≡◌, refl, arith}
use kubernetes_programming.Prelude.Maps.{find, put, is_set}
use kubernetes_programming.Informers.{shutdown, informer_returns}
use kubernetes_programming.Informers.Start.{after_all}
use kubernetes_programming.Informers.Threads.{
  System, held, before, waits, returned, at_stage, free, leaving, collecting, lock_wait, refused,
  at_first, Reach, here, next, unlock, lock_start, walks, adds, spawns, marks, walked,
  lock_shutdown, shuts, unlock_shutdown, done, wait,
}
use kubernetes_programming.Informers.Threads.Linear.{calls, interleaved_sequential}
use kubernetes_programming.Informers.Threads.Ends.{Frees, Returns, no_deadlock}
use kubernetes_programming.Informers.Threads.Quiet.{returned_quiet}
use kubernetes_programming.Informers.Examples.{lib, with_pods, pods}

-- The first goroutine starts the informer.
abbrev started : System lib
started = record (at_first with_pods) {
  factory = record with_pods { wg = 1; started_informers = put [] pods true };
  live = 1;
  launched = with_pods.informers;
}

nothing_started : is_set [] pods ≡ false
unfolding is_set find
nothing_started = refl

start_it : Reach (at_first with_pods) started
start_it =
    next
      (next
        (next
          (next
            (next (next (next here (lock_start 0 refl)) (walks refl refl))
              (adds refl nothing_started))
            (spawns refl))
          (marks refl))
        (walked refl))
      (unlock refl)

-- The second asks for Shutdown and waits until the informer has returned.
abbrev ended : System lib
ended = record started {
  factory = record started.factory { wg = 0; shutting_down = true };
  stage = at_stage (at_stage (λ i. before) 1 waits) 1 returned;
  live = 0;
}

-- It waits while a fourth has the mutex.
abbrev waiting : System lib
waiting = record started {
  factory = record started.factory { shutting_down = true };
  stage = at_stage (λ i. before) 1 waits;
  mutex = held 3 collecting;
}

stop_it : Reach (at_first with_pods) (record waiting { mutex = free })
unfolding shutdown
stop_it = next (next (next start_it (lock_shutdown 1 refl)) (shuts refl)) (unlock_shutdown refl)

no_deadlock_example : Frees waiting × Returns waiting 1 waiting
no_deadlock_example = no_deadlock with_pods 1 refl (next stop_it (lock_wait 3 refl)) refl

both : Reach (at_first with_pods) ended
unfolding informer_returns
both = next (next stop_it (done (omega arith))) (wait refl refl)

-- A third calls Start after that.
abbrev after_end : System lib
after_end = record ended { mutex = held 2 leaving }

start_again : Reach ended after_end
start_again = next (next here (lock_start 2 refl)) (refused refl refl)

interleaved_sequential_example :
    after_all lib (calls lib both) with_pods ≡ (ended.factory, ended.launched)
interleaved_sequential_example = interleaved_sequential lib with_pods refl both refl

returned_quiet_example :
    (ended.live ≡ 0) × (after_end.live ≡ 0) × (after_end.launched ≡ ended.launched)
returned_quiet_example = returned_quiet with_pods 1 refl both refl start_again
