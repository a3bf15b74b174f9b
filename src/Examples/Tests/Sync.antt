-- ===== src/Examples/Tests/Sync.antt =====
-- The theorems on the buffer, the semaphore and the barrier at concrete inputs.
use c_coroutine.Base.{
  ℕ, zero, suc, ◌+◌, ◌≤◌, ◌≡◌, ◌≢◌, refl, List, [], ◌∷◌, ◌++◌, none, arith, length, upto, replicate,
}
use mathlib.Core.List.Memᴰ
use c_coroutine.Examples.Turns.{turns, rounds, IsFair, Everyone, AllFair-replicate, upto-IsFair}
use c_coroutine.Examples.Crowd.{crowd_turn, total, AllReturned}
use c_coroutine.Examples.RingBuffer
use c_coroutine.Examples.RingBuffer.{Who, producing, consuming}
use c_coroutine.Examples.RingBuffer.Order.{consumed_in_order, all_delivered}
use c_coroutine.Examples.RingBuffer.Progress.{always_finishes, delivers_everything, BothReturned}
use c_coroutine.Examples.Semaphore
use c_coroutine.Examples.Semaphore.Exclusion.{inside, at_most_slots}
use c_coroutine.Examples.Semaphore.Progress.{AllThrough, all_workers_finish}
use c_coroutine.Examples.Semaphore.Counter.{mutex_counts}
use c_coroutine.Examples.Barrier
use c_coroutine.Examples.Barrier.Rendezvous.{before, passed, none_passes_early}
use c_coroutine.Examples.Barrier.Progress.{all_pass}

-- A schedule that repeats a round.
abbrev repeat : {A : Type 0} → ℕ → List A → List A
repeat zero round = []
repeat (suc n) round = round ++ repeat n round

abbrev hasty : List Who
hasty = consuming ∷ producing ∷ producing ∷ consuming ∷ producing ∷ []

consumed_in_order_test :
    let s = turns RingBuffer.turn hasty RingBuffer.started in s.consumed ≡ upto (length s.consumed)
consumed_in_order_test = consumed_in_order hasty

-- Blocks of five, so that the buffer fills up.
abbrev bursts : List Who
bursts = repeat 6 (repeat 5 (producing ∷ []) ++ repeat 5 (consuming ∷ []))

bursts_end : (turns RingBuffer.turn bursts RingBuffer.started).received ≡ none
unfolding RingBuffer.turn RingBuffer.producer RingBuffer.consumer RingBuffer.rb_push
    RingBuffer.rb_pop
bursts_end = refl

all_delivered_test : (turns RingBuffer.turn bursts RingBuffer.started).consumed ≡ upto 20
all_delivered_test = all_delivered bursts bursts_end

both : IsFair Everyone (consuming ∷ producing ∷ [])
both producing _ = Memᴰ.tail (Memᴰ.head refl)
both consuming _ = Memᴰ.head refl

always_finishes_test :
    BothReturned
      (rounds RingBuffer.turn (replicate 43 (consuming ∷ producing ∷ [])) RingBuffer.started)
always_finishes_test =
    always_finishes (replicate 43 (consuming ∷ producing ∷ [])) (AllFair-replicate 43 both)
      (omega arith)

delivers_everything_example :
    let s = rounds RingBuffer.turn (replicate 43 (consuming ∷ producing ∷ [])) RingBuffer.started in
    BothReturned s × (s.consumed ≡ upto 20)
delivers_everything_example =
    delivers_everything (replicate 43 (consuming ∷ producing ∷ [])) (AllFair-replicate 43 both)
      (omega arith)

abbrev uneven : List ℕ
uneven = 0 ∷ 0 ∷ 3 ∷ 3 ∷ 1 ∷ 1 ∷ 3 ∷ 0 ∷ 7 ∷ []

at_most_slots_example :
    let c = turns (crowd_turn Semaphore.worker) uneven (Semaphore.started 2 5) in
    (total inside c.locals ≤ 2) × (c.shared.sem.count + total inside c.locals ≡ 2)
at_most_slots_example = at_most_slots 2 5 uneven

all_workers_finish_example :
    AllThrough 2
      (rounds (crowd_turn Semaphore.worker) (replicate 21 (upto 5)) (Semaphore.started 2 5))
all_workers_finish_example =
    all_workers_finish 2 5 (omega arith) (replicate 21 (upto 5))
      (AllFair-replicate 21 (upto-IsFair 5)) (omega arith)

-- Two workers behind a mutex, one round after another.
abbrev two_rounds : List ℕ
two_rounds = repeat 8 (0 ∷ 1 ∷ [])

two_return : AllReturned (turns (crowd_turn Semaphore.worker) two_rounds (Semaphore.started 1 2))
unfolding Semaphore.worker Semaphore.sem_wait Semaphore.sem_post Semaphore.started
    Semaphore.sem_init crowd_turn
two_return zero = refl
two_return (suc zero) = refl
two_return (suc (suc i)) = refl

mutex_counts_example :
    (turns (crowd_turn Semaphore.worker) two_rounds (Semaphore.started 1 2)).shared.shared_counter
    ≡ 2
mutex_counts_example = mutex_counts 2 two_rounds two_return

-- With two slots both workers read the counter before either writes it.
lost_update :
    (turns (crowd_turn Semaphore.worker) two_rounds (Semaphore.started 2 2)).shared.shared_counter
    ≡ 1
unfolding Semaphore.worker Semaphore.sem_wait Semaphore.sem_post Semaphore.started
    Semaphore.sem_init crowd_turn
lost_update = refl

abbrev early : List ℕ
early = 0 ∷ 0 ∷ 2 ∷ 1 ∷ 0 ∷ []

three_missing :
    total before (turns (crowd_turn Barrier.worker) early (Barrier.started 4)).locals ≢ 0
unfolding Barrier.worker Barrier.cob_arrive Barrier.started Barrier.cob_init crowd_turn
three_missing = omega arith

none_passes_early_test :
    total passed (turns (crowd_turn Barrier.worker) early (Barrier.started 4)).locals ≡ 0
none_passes_early_test = none_passes_early 4 early three_missing

all_pass_example :
    AllReturned (rounds (crowd_turn Barrier.worker) (replicate 9 (upto 4)) (Barrier.started 4))
all_pass_example =
    all_pass 4 (replicate 9 (upto 4)) (AllFair-replicate 9 (upto-IsFair 4)) (omega arith)
