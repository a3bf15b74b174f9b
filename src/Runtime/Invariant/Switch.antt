-- ===== src/Runtime/Invariant/Switch.antt =====
-- Yielding, waiting and resuming keep the invariant.
use c_coroutine.Base.{
  ◌≡◌, ◌≢◌, [], ◌∷◌, List, true, false, some, arith, has, Distinct, has-append, Distinct-append_one,
  ap, subst,
}
use c_coroutine.Runtime.Types.{Ptr, null, ready, done, Coroutine}
use c_coroutine.Runtime.Spec.{View, yield_view, await_view, resume_view}
use c_coroutine.Runtime.Invariant.Defs.{state_at, IsConsistent}

module _ {L : Type 0} {v : View L} (k : IsConsistent v) {c : Coroutine L} (ne : v.running ≢ null)
    (h : v.cell v.running ≡ some c) where
  not_queued : has v.running v.queue ≡ false
  not_queued = ground (arith, k.queued v.running, k.runs)

  pub yield-IsConsistent : IsConsistent (yield_view v.running c v)
  yield-IsConsistent = record {
    distinct = k.distinct;
    few = k.few;
    not_null = k.not_null;
    allocated = λ a m. ground (arith, k.allocated a);
    queue_distinct = Distinct-append_one v.queue v.running k.queue_distinct not_queued;
    queued = λ a m. ground (arith, k.queued a, k.runs, has-append a v.queue (v.running ∷ []));
    ready_queued = λ a m. ground (arith, k.ready_queued a, has-append a v.queue (v.running ∷ []));
    runs = λ n. ground arith;
    only_runs = λ a m. ground (arith, k.only_runs a);
    waits = λ a m. ground (arith, k.waits a);
    idle = λ a m. ground (arith, k.idle a, k.runs);
  }

  pub await-IsConsistent :
      (other : Ptr)
      → has other v.registered ≡ true
      → state_at (v.cell other) ≢ some done
      → IsConsistent (await_view v.running c other v)
  await-IsConsistent other m nd = record {
    distinct = k.distinct;
    few = k.few;
    not_null = k.not_null;
    allocated = λ a m. ground (arith, k.allocated a);
    queue_distinct = k.queue_distinct;
    queued = λ a m. ground (arith, k.queued a, k.runs);
    ready_queued = λ a m. ground (arith, k.ready_queued a);
    runs = λ n. ground arith;
    only_runs = λ a m. ground (arith, k.only_runs a);
    waits = λ a m'. ground (arith, k.waits a);
    idle = λ a m. ground (arith, k.idle a, k.runs);
  }

module _ {L : Type 0} {v : View L} (k : IsConsistent v) (p : Ptr) (rest : List Ptr)
    (q : v.queue ≡ p ∷ rest) where
  -- The head of the queue is registered, ready, and queued once.
  pub head_is_ready :
      (has p v.registered ≡ true)
      × (state_at (v.cell p) ≡ some ready)
      × (has p rest ≡ false)
      × Distinct rest
  head_is_ready =
      let d : Distinct (p ∷ rest) = subst Distinct q k.queue_distinct in
      let r = k.queued p (rw q (ground arith)) in (r.0, r.1, d.0, d.1)

  pub resume-IsConsistent :
      {c : Coroutine L}
      → v.cell p ≡ some c
      → v.running ≡ null
      → IsConsistent (resume_view p c rest v)
  resume-IsConsistent h idle_before = record {
    distinct = k.distinct;
    few = k.few;
    not_null = k.not_null;
    allocated = λ a m. ground (arith, k.allocated a);
    queue_distinct = head_is_ready.3;
    queued = λ a m. ground (arith, k.queued a, head_is_ready, ap (has a) q);
    ready_queued = λ a m. ground (arith, k.ready_queued a, ap (has a) q);
    runs = λ n. ground (arith, head_is_ready);
    only_runs = λ a m. ground (arith, k.only_runs a, k.not_null);
    waits = λ a m. ground (arith, k.waits a);
    idle = λ a m. ground (arith, k.idle a, head_is_ready);
  }
