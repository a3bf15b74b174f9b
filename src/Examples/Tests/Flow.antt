-- ===== src/Examples/Tests/Flow.antt =====
-- The theorems on the pipeline and the task pool at concrete inputs.
use c_coroutine.Base.{
  weigh, zero, suc, ◌+◌, ◌*◌, ◌≤◌, ◌≡◌, refl, List, [], ◌∷◌, ◌++◌, none, some, arith, length,
  replicate, false, get_or, true,
}
use mathlib.Core.List.Memᴰ
use c_coroutine.Ring.{Holds}
use c_coroutine.Examples.Turns.{turns, rounds, IsFair, Everyone, AllFair-replicate}
use c_coroutine.Examples.Crowd.{total}
use c_coroutine.Examples.Pipeline
use c_coroutine.Examples.Pipeline.{Stage}
use c_coroutine.Examples.Pipeline.Total.{total_at_the_end}
use c_coroutine.Examples.Pipeline.Progress.{AllReturned, all_stages_finish, totals_everything}
use c_coroutine.Examples.WorkStealing
use c_coroutine.Examples.WorkStealing.{Who, dispatch, work, Task, WorkerState}
use c_coroutine.Examples.WorkStealing.Conservation.{dispatched, reached, load}
use c_coroutine.Examples.WorkStealing.Kept.{nothing_lost, local_bound}
use c_coroutine.Examples.WorkStealing.Finish.{Here, AllCompleted, all_tasks_completed}

abbrev order : List Stage
order = Pipeline.sink ∷ Pipeline.transform ∷ Pipeline.source ∷ Pipeline.transform ∷ []

abbrev four_each : List Stage
four_each = order ++ order ++ order ++ order ++ order ++ order ++ order ++ order ++ order

sink_closed : (turns (Pipeline.turn 4) four_each Pipeline.started).sink ≡ false
unfolding Pipeline.turn Pipeline.source_fn Pipeline.transform_fn Pipeline.sink_fn
sink_closed = refl

total_at_the_end_test : (turns (Pipeline.turn 4) four_each Pipeline.started).total + 4 ≡ 4 * 4
total_at_the_end_test = total_at_the_end 4 (omega arith) four_each sink_closed

-- For one number more than the bound, the total of the sink is past an int.
overflow_past_bound : Pipeline.overflows (46342 * 46341) ≡ true
overflow_past_bound = refl

every_stage : IsFair Everyone order
every_stage Stage.source _ = Memᴰ.tail (Memᴰ.tail (Memᴰ.head refl))
every_stage Stage.transform _ = Memᴰ.tail (Memᴰ.head refl)
every_stage Stage.sink _ = Memᴰ.head refl

all_stages_finish_test :
    AllReturned (rounds (Pipeline.turn 10) (replicate 45 order) Pipeline.started)
all_stages_finish_test =
    all_stages_finish 10 (omega arith) (replicate 45 order) (AllFair-replicate 45 every_stage)
      (omega arith)

totals_everything_example :
    let s = rounds (Pipeline.turn 10) (replicate 45 order) Pipeline.started in
    AllReturned s × (s.overflow ≡ false) × (s.total + 10 ≡ 10 * 10)
totals_everything_example =
    totals_everything 10 (omega arith) (replicate 45 order) (AllFair-replicate 45 every_stage)
      (omega arith)

abbrev round_of_five : List Who
round_of_five = dispatch ∷ work 0 ∷ work 1 ∷ work 2 ∷ work 3 ∷ []

every_worker : IsFair Here round_of_five
every_worker dispatch _ = Memᴰ.head refl
every_worker (work zero) _ = Memᴰ.tail (Memᴰ.head refl)
every_worker (work (suc zero)) _ = Memᴰ.tail (Memᴰ.tail (Memᴰ.head refl))
every_worker (work (suc (suc zero))) _ = Memᴰ.tail (Memᴰ.tail (Memᴰ.tail (Memᴰ.head refl)))
every_worker (work (suc (suc (suc zero)))) _ =
    Memᴰ.tail (Memᴰ.tail (Memᴰ.tail (Memᴰ.tail (Memᴰ.head refl))))
every_worker (work (suc (suc (suc (suc n))))) h = absurd (omega arith)

all_tasks_completed_example :
    AllCompleted (rounds WorkStealing.turn (replicate 68 round_of_five) WorkStealing.started)
all_tasks_completed_example =
    all_tasks_completed (replicate 68 round_of_five) (AllFair-replicate 68 every_worker)
      (omega arith)

abbrev some_turns : List Who
some_turns = dispatch ∷ dispatch ∷ work 2 ∷ dispatch ∷ work 2 ∷ work 0 ∷ []

nothing_lost_example :
    let p = turns WorkStealing.turn some_turns WorkStealing.started in
    (held : List Task) × Holds WorkStealing.global_cap WorkStealing.no_task p.shared.global_queue
      held
    × (weigh (λ t. t.cost) p.shared.finished
          + total (load (λ t. t.cost)) p.workers
          + weigh (λ t. t.cost) held
        ≡ weigh (λ t. t.cost) (dispatched (reached p.dispatcher)))
    × (length p.shared.finished ≡ p.shared.tasks_completed)
nothing_lost_example = nothing_lost some_turns (λ t. t.cost)

abbrev third : WorkerState
third = record { local = WorkStealing.task 0 ∷ []; stolen = 2; processed = 1 }

third_is :
    get_or (turns WorkStealing.turn some_turns WorkStealing.started).workers 2 none ≡ some third
unfolding WorkStealing.turn WorkStealing.dispatcher_fn WorkStealing.worker_fn WorkStealing.steal
    WorkStealing.tq_push WorkStealing.tq_pop
third_is = refl

local_bound_test : length third.local ≤ WorkStealing.local_cap
local_bound_test = local_bound some_turns 2 third third_is
