-- ===== src/Runtime/Tests/Ring.antt =====
-- The run queue of src/coroutine.c at concrete inputs.
use c_coroutine.Base.{ℕ, ◌≡◌, ◌++◌, refl, [], ◌∷◌, some, arith}
use c_coroutine.Runtime.Types.{null, RunQueue}
use c_coroutine.Runtime.Queue.{q_push, q_pop}
use c_coroutine.Runtime.Queue.Fifo.{IsRing, contents, q_push_fifo, q_pop_fifo}
use c_coroutine.Runtime.Queue.Sequence.{push, pop, run, run_refines}
use c_coroutine.Runtime.Boot.{empty_queue, boot-IsGood}

empty-IsRing : IsRing empty_queue
empty-IsRing = (boot-IsGood {L = ℕ}).sound.ring

calls_run :
    run (push 5 ∷ push 6 ∷ pop ∷ push 7 ∷ pop ∷ pop ∷ pop ∷ []) empty_queue
    ≡ some (5 ∷ 6 ∷ 7 ∷ null ∷ [])
unfolding run q_push q_pop
calls_run = refl

q_push_fifo_example :
    (q' : RunQueue) × (q_push 9 empty_queue ≡ some q')
    × IsRing q'
    × (contents q' ≡ contents empty_queue ++ (9 ∷ []))
q_push_fifo_example = q_push_fifo 9 empty-IsRing (omega arith)

q_pop_fifo_example :
    IsRing (q_pop empty_queue).1
    × ((q_pop empty_queue).0 ≡ null)
    × (contents (q_pop empty_queue).1 ≡ [])
q_pop_fifo_example = q_pop_fifo empty-IsRing

run_refines_example : run (push 5 ∷ pop ∷ pop ∷ []) empty_queue ≡ some (5 ∷ null ∷ [])
run_refines_example = run_refines (push 5 ∷ pop ∷ pop ∷ []) empty-IsRing
