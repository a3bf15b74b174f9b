-- ===== src/Runtime/Boot.antt =====
-- The scheduler before its first use, and the coroutines that `main` creates before `co_run`.
use c_coroutine.Base.{
  ℕ, ◌<◌, ◌≡◌, ◌≢◌, refl, sym, subst, none, arith, replicate, length-replicate, length-take,
}
use c_coroutine.Runtime.Types.{Ptr, null, RunQueue, World, ok, max_coroutines, queue_cap}
use c_coroutine.Runtime.Ops.{co_create}
use c_coroutine.Runtime.Spec.{create_view}
use c_coroutine.Runtime.Refine.Defs.{view}
use c_coroutine.Runtime.Refine.Create.{co_create_refines}
use c_coroutine.Runtime.Invariant.Defs.{IsConsistent}
use c_coroutine.Runtime.Invariant.Create.{create-IsConsistent}
use c_coroutine.Runtime.Machine.Good.{IsGood, size-le-count}

-- A static object is filled with zeros.
abbrev pub empty_queue : RunQueue
empty_queue = record { queue = replicate queue_cap null; q_head = 0; q_tail = 0; q_size = 0 }

module _ {L : Type 0} where
  abbrev pub boot : World L
  boot = record {
    all = replicate max_coroutines null;
    count = 0;
    run_queue = empty_queue;
    running = null;
    heap = λ _. none;
    stacks = λ _. none;
  }

  pub boot-IsGood : IsGood boot
  boot-IsGood = record {
    sound = record {
      ring = record {
        storage = length-replicate queue_cap null;
        head_in = omega arith;
        size_in = omega arith;
        tail_at = refl;
      };
      registry = length-replicate max_coroutines null;
      count_in = omega arith;
    };
    consistent = record {
      distinct = tt;
      few = omega arith;
      not_null = refl;
      allocated = λ a m. cc;
      queue_distinct = tt;
      queued = λ a m. absurd (cc);
      ready_queued = λ a m s. cc;
      runs = λ n. absurd (n refl);
      only_runs = λ a m s. absurd (cc);
      waits = λ a m s. absurd (cc);
      idle = λ a m s. refl;
    };
  }

  -- From a good state, with a function that is not null, fewer than the maximal number of
  -- coroutines, and two non-null allocations of which the object's is unused, co_create returns
  -- the new object in a good state; the coroutine has the next number, is ready, and is the last
  -- registered and the last queued.
  pub co_create-IsGood :
      (co_mem stack_mem : Ptr) (fn arg stack_size : ℕ) (entry : L) {w : World L}
      → IsGood w
      → fn ≢ 0
      → w.count < max_coroutines
      → co_mem ≢ null
      → stack_mem ≢ null
      → w.heap co_mem ≡ none
      → (w' : World L) × (co_create co_mem stack_mem fn arg stack_size entry w ≡ ok co_mem w')
        × IsGood w'
        × (view w' ≡ create_view co_mem stack_mem fn arg stack_size entry (view w))
  co_create-IsGood co_mem stack_mem fn arg stack_size entry {w} g nf few ncm nsm unused =
      let (w', e, s, v) =
        co_create_refines g.sound co_mem stack_mem fn arg stack_size entry nf few ncm nsm
          (omega (arith, size-le-count g)) in
      let k =
        create-IsConsistent g.consistent co_mem unused stack_mem fn arg stack_size entry ncm
          (omega (arith, length-take w.count w.all (omega (arith, g.sound)))) in
      (w', e, record { sound = s; consistent = subst IsConsistent (sym v) k }, v)
