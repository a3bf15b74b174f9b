-- ===== src/Runtime/Queue.antt =====
-- The run-queue helpers `q_push` and `q_pop` of src/coroutine.c.
pub mod Fifo
pub mod Sequence
use c_coroutine.Base.{ℕ, ◌+◌, ◌-◌, ◌%◌, Option, none, some, set, get_or, ltb, ◌==◌, if◌then◌else◌}
use c_coroutine.Runtime.Types.{Ptr, null, queue_cap, RunQueue}

-- `none` is the failure of the assertion "run-queue overflow".
unfoldable pub q_push : Ptr → RunQueue → Option RunQueue
q_push co q =
    if ltb q.q_size queue_cap
    then some (record {
      queue = set q.queue q.q_tail co;
      q_head = q.q_head;
      q_tail = (q.q_tail + 1) % queue_cap;
      q_size = q.q_size + 1;
    })
    else none

-- The pointer that it returns, null if the queue is empty, and the queue that is left.
unfoldable pub q_pop : RunQueue → Ptr × RunQueue
q_pop q = if q.q_size == 0 then (null, q) else (
  get_or q.queue q.q_head null,
  record q { q_head = (q.q_head + 1) % queue_cap; q_size = q.q_size - 1 },
)
