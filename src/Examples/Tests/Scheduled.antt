-- ===== src/Examples/Tests/Scheduled.antt =====
-- The theorems on examples that run on the model of the scheduler, at concrete inputs.
use c_coroutine.Base.{◌≡◌, ◌⊎◌, refl, [], ◌∷◌, arith}
use c_coroutine.Runtime.Types.{World, ok}
use c_coroutine.Runtime.Boot.{boot}
use c_coroutine.Examples.Crowd.{total}
use c_coroutine.Examples.Barrier
use c_coroutine.Examples.Barrier.{Worker}
use c_coroutine.Examples.Barrier.Rendezvous.{before, passed}
use c_coroutine.Examples.OnScheduler.Launch.{Memory, create_each}
use c_coroutine.Examples.OnScheduler.Meeting.{workers_after, meets_on_scheduler}

abbrev two_workers : Memory
two_workers = (1000, 5000) ∷ (2000, 6000) ∷ []

meets_on_scheduler_example :
    (w : World Worker) × (create_each 1 1 Barrier.fresh two_workers boot ≡ ok tt w)
    × ((total before (workers_after 2 3 w).locals ≡ 0)
        ⊎ (total passed (workers_after 2 3 w).locals ≡ 0))
meets_on_scheduler_example =
    meets_on_scheduler 1 3 two_workers (omega arith)
      (omega arith, omega arith, refl, refl, (omega arith, omega arith, refl, refl, tt))
      (omega arith)
