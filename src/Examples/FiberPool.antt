-- ===== src/Examples/FiberPool.antt =====
-- examples/fiber_pool.c: `main` resumes its fibers one after another, until the task queue is
-- empty and all fibers are idle for a round. `calloc` and `coroutine_create` succeed, and
-- `coroutine_resume` runs a fiber to its next `co_yield`.
pub mod Drained
use c_coroutine.Base.{
  ℕ, zero, suc, ◌+◌, List, [], ◌∷◌, Option, none, some, Bool, ◌&&◌, ◌||◌, get_or, ltb, ◌==◌,
  if◌then◌else◌, replicate,
}
use c_coroutine.Ring.{Ring, insert, remove, empty}

abbrev pub queue_cap : ℕ
queue_cap = 64

abbrev pub queue_init : Ring ℕ
queue_init = empty queue_cap 0

-- `none` is the result -1.
unfoldable pub queue_push : Ring ℕ → ℕ → Option (Ring ℕ)
queue_push q val = if q.size == queue_cap then none else some (insert queue_cap val q)

unfoldable pub queue_pop : Ring ℕ → Option (ℕ × Ring ℕ)
queue_pop q = if q.size == 0 then none else some (get_or q.slots q.head 0, remove queue_cap q)

-- A turn of a fiber that has processed so many tasks, and the queue after it.
unfoldable pub worker_fn : ℕ → Ring ℕ → ℕ × Ring ℕ
worker_fn processed q = elim (queue_pop q) [
  | none ↦ (processed, q)
  | some popped ↦ (processed + 1, popped.1)
]

-- The loop that queues the tasks `i + 1`, `left` of them; a task that does not fit is dropped.
unfoldable pub enqueue_tasks : (left i : ℕ) → Ring ℕ → Ring ℕ
enqueue_tasks zero i q = q
enqueue_tasks (suc left) i q = elim (queue_push q (i + 1)) [
  | none ↦ enqueue_tasks left (i + 1) q
  | some q' ↦ enqueue_tasks left (i + 1) q'
]

-- What a round of `main` leaves: the counts of the fibers, the queue, and `idle_rounds`.
pub record Round : Type 0 where
  pub processed : List ℕ
  pub queue : Ring ℕ
  pub idle_rounds : ℕ

-- The `for` loop of `main` over the fibers.
unfoldable pub resume_all : List ℕ → Ring ℕ → Round
resume_all [] q = record { processed = []; queue = q; idle_rounds = 0 }
resume_all (before ∷ args) q =
    let r = worker_fn before q in
    let rest = resume_all args r.1 in
    record {
      processed = r.0 ∷ rest.processed;
      queue = rest.queue;
      idle_rounds = (if r.0 == before && r.1.size == 0 then 1 else 0) + rest.idle_rounds;
    }

-- The `while` loop of `main`, for at most `fuel` rounds.
unfoldable pub schedule : (fuel num_fibers : ℕ) → Round → Option Round
schedule zero num_fibers s = none
schedule (suc fuel) num_fibers s =
    let later = schedule fuel num_fibers (resume_all s.processed s.queue) in
    if ltb s.idle_rounds num_fibers then later else some s

abbrev pub sum : List ℕ → ℕ
sum [] = 0
sum (n ∷ ns) = n + sum ns

abbrev pub out_of_range : ℕ → ℕ → Bool
out_of_range n max = ltb n 1 || ltb max n

-- The exit code, from the numbers of fibers and of tasks; `none` if the fuel does not do.
unfoldable pub main : (fuel num_fibers num_tasks : ℕ) → Option ℕ
main fuel num_fibers num_tasks =
    if out_of_range num_fibers 32
    then some 1
    else if out_of_range num_tasks queue_cap
    then some 1
    else elim (schedule fuel num_fibers (record {
      processed = replicate num_fibers 0;
      queue = enqueue_tasks num_tasks 0 queue_init;
      idle_rounds = 0;
    })) [ none ↦ none | some s ↦ some (if sum s.processed == num_tasks then 0 else 1) ]
