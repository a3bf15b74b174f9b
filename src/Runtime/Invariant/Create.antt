-- ===== src/Runtime/Invariant/Create.antt =====
-- Creating a coroutine keeps the invariant.
use c_coroutine.Base.{
  ℕ, ◌<◌, ◌≡◌, ◌≢◌, [], ◌∷◌, false, none, arith, length, has, has-append, Distinct-append_one,
  length-append,
}
use c_coroutine.Runtime.Types.{Ptr, null, max_coroutines}
use c_coroutine.Runtime.Spec.{View, create_view}
use c_coroutine.Runtime.Invariant.Defs.{awaits_at, IsConsistent}

module _ {L : Type 0} {v : View L} (k : IsConsistent v) (p : Ptr) (free : v.cell p ≡ none) where
  unregistered : has p v.registered ≡ false
  unregistered = ground (arith, k.allocated p)

  unqueued : has p v.queue ≡ false
  unqueued = ground (arith, k.queued p, unregistered)

  pub create-IsConsistent :
      (stack_mem : Ptr) (fn arg stack_size : ℕ) (entry : L)
      → p ≢ null
      → length v.registered < max_coroutines
      → IsConsistent (create_view p stack_mem fn arg stack_size entry v)
  create-IsConsistent stack_mem fn arg stack_size entry np room = record {
    distinct = Distinct-append_one v.registered p k.distinct unregistered;
    few = omega (arith, length-append v.registered (p ∷ []));
    not_null = ground (arith, k.not_null, has-append null v.registered (p ∷ []));
    allocated = λ a m. ground (arith, k.allocated a, has-append a v.registered (p ∷ []));
    queue_distinct = Distinct-append_one v.queue p k.queue_distinct unqueued;
    queued = λ a m. ground (
      arith,
      k.queued a,
      unregistered,
      has-append a v.registered (p ∷ []),
      has-append a v.queue (p ∷ []),
    );
    ready_queued = λ a m. ground (
      arith,
      k.ready_queued a,
      has-append a v.registered (p ∷ []),
      has-append a v.queue (p ∷ []),
    );
    runs = λ n. ground (arith, k.runs, unregistered, has-append v.running v.registered (p ∷ []));
    only_runs = λ a m. ground (arith, k.only_runs a, has-append a v.registered (p ∷ []));
    waits = λ a m. ground (
      arith,
      k.waits a,
      unregistered,
      has-append a v.registered (p ∷ []),
      has-append (awaits_at (v.cell a)) v.registered (p ∷ []),
    );
    idle = λ a m. ground (arith, k.idle a, has-append a v.registered (p ∷ []));
  }
