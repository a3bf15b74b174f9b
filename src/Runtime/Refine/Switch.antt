-- ===== src/Runtime/Refine/Switch.antt =====
-- `co_yield`, `co_await` and the rounds of `co_run` do the operations of the specification.
use c_coroutine.Base.{◌<◌, ◌≡◌, ◌≢◌, refl, ap, some, arith}
use c_coroutine.Runtime.Types.{
  Ptr, null, Coroutine, World, ok, update, queue_cap, ready, waiting, done,
}
use c_coroutine.Runtime.Queue.Fifo.{q_push_fifo}
use c_coroutine.Runtime.Ops.{co_yield, co_await}
use c_coroutine.Runtime.Spec.{yield_view, await_view}
use c_coroutine.Runtime.Refine.Defs.{view, IsSound, Delivers}

module _ {L : Type 0} {w : World L} (s : IsSound w) where
  -- In a state whose arrays are in order and whose queue is not full, co_yield by a running,
  -- allocated coroutine makes it ready, queues it behind all others, and leaves nothing running.
  pub co_yield_refines :
      {c : Coroutine L}
      → w.running ≢ null
      → w.heap w.running ≡ some c
      → w.run_queue.q_size < queue_cap
      → Delivers (co_yield w) tt (yield_view w.running c (view w))
  unfolding co_yield
  co_yield_refines {c} ne h room =
      let (q, e, r, p) = q_push_fifo w.running s.ring room in
      (
        record w {
          run_queue = q;
          running = null;
          heap = update w.heap w.running (some (record c { state = ready }));
        },
        ground (arith, e, h),
        record { ring = r; registry = s.registry; count_in = s.count_in },
        ap (λ ps. record (yield_view w.running c (view w)) { queue = ps }) p,
      )

  -- In a state whose arrays are in order, co_await by a running, allocated coroutine on an
  -- allocated coroutine that is not done suspends the caller on it, queues nothing, and leaves
  -- nothing running.
  pub co_await_refines :
      (other : Ptr) {o c : Coroutine L}
      → other ≢ null
      → w.heap other ≡ some o
      → o.state ≢ done
      → w.running ≢ null
      → w.heap w.running ≡ some c
      → Delivers (co_await other w) tt (await_view w.running c other (view w))
  unfolding co_await
  co_await_refines other {o} {c} ne ho nd nr h = (
    record w {
      running = null;
      heap = update w.heap w.running (some (record c { state = waiting; awaiting = other }));
    },
    ground (arith, ho, h),
    record { ring = s.ring; registry = s.registry; count_in = s.count_in },
    refl,
  )

  -- A coroutine that is done is not waited for: the call changes nothing.
  pub co_await-done :
      (other : Ptr) {o : Coroutine L}
      → other ≢ null
      → w.heap other ≡ some o
      → o.state ≡ done
      → co_await other w ≡ ok tt w
  unfolding co_await
  co_await-done other ne ho d = ground arith
