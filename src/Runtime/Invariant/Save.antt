-- ===== src/Runtime/Invariant/Save.antt =====
-- The code of the running coroutine does not touch the scheduler's state.
use c_coroutine.Base.{◌≡◌, some, arith}
use c_coroutine.Runtime.Types.{Coroutine}
use c_coroutine.Runtime.Spec.{View, write_cell}
use c_coroutine.Runtime.Invariant.Defs.{IsConsistent}

pub save-IsConsistent :
    {L : Type 0} {v : View L} {c : Coroutine L} (l : L)
    → IsConsistent v
    → v.cell v.running ≡ some c
    → IsConsistent (write_cell v.running (record c { ctx = l }) v)
save-IsConsistent {v} {c} l k h = record {
  distinct = k.distinct;
  few = k.few;
  not_null = k.not_null;
  allocated = λ a m. ground (arith, k.allocated a);
  queue_distinct = k.queue_distinct;
  queued = λ a m. ground (arith, k.queued a);
  ready_queued = λ a m. ground (arith, k.ready_queued a);
  runs = λ n. ground (arith, k.runs);
  only_runs = λ a m. ground (arith, k.only_runs a);
  waits = λ a m. ground (arith, k.waits a);
  idle = λ a m. ground (arith, k.idle a);
}
