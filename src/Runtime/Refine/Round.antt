-- ===== src/Runtime/Refine/Round.antt =====
-- The rounds of `co_run` take the coroutine at the head of the queue and run it.
use c_coroutine.Base.{◌≡◌, ◌≢◌, sym, ap, ◌∙◌, List, [], ◌∷◌, some, arith, true, false}
use c_coroutine.Runtime.Types.{Ptr, null, Coroutine, World, update, ready, running}
use c_coroutine.Runtime.Queue.{q_pop}
use c_coroutine.Runtime.Queue.Fifo.{contents, q_pop_fifo, pop_front}
use c_coroutine.Runtime.Ops.{co_run_round}
use c_coroutine.Runtime.Spec.{resume_view}
use c_coroutine.Runtime.Refine.Defs.{view, IsSound, Delivers}

module _ {L : Type 0} {w : World L} (s : IsSound w) where
  -- The loop ends when nothing is queued, and leaves the state as it is.
  pub co_run_round-empty : contents w.run_queue ≡ [] → Delivers (co_run_round w) false (view w)
  unfolding co_run_round
  co_run_round-empty e =
      let (r, p, cs) = q_pop_fifo s.ring in
      (
        record w { run_queue = (q_pop w.run_queue).1 },
        ground (arith, p, e),
        record { ring = r; registry = s.registry; count_in = s.count_in },
        ap (λ ps. record (view w) { queue = ps })
            (cs ∙ ap (λ (ps : List Ptr). (pop_front ps).1) e ∙ sym e),
      )

  -- In a state whose arrays are in order, if the oldest queued pointer is not null and its
  -- coroutine is allocated and ready, a round of co_run takes it off the queue, marks it running,
  -- names it as the one that runs, and goes on.
  pub co_run_round_refines :
      (p : Ptr) (rest : List Ptr) {c : Coroutine L}
      → contents w.run_queue ≡ p ∷ rest
      → p ≢ null
      → w.heap p ≡ some c
      → c.state ≡ ready
      → Delivers (co_run_round w) true (resume_view p c rest (view w))
  unfolding co_run_round
  co_run_round_refines p rest {c} e ne h st =
      let (r, p0, cs) = q_pop_fifo s.ring in
      (
        record w {
          run_queue = (q_pop w.run_queue).1;
          running = p;
          heap = update w.heap p (some (record c { state = running }));
        },
        ground (arith, p0, e, h),
        record { ring = r; registry = s.registry; count_in = s.count_in },
        ap (λ ps. record (resume_view p c rest (view w)) { queue = ps })
            (cs ∙ ap (λ (ps : List Ptr). (pop_front ps).1) e),
      )
