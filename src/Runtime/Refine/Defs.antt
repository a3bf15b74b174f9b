-- ===== src/Runtime/Refine/Defs.antt =====
-- The view of a state of the scheduler, and what it means that a call does an operation on it.
use c_coroutine.Base.{◌≤◌, ◌<◌, ◌≡◌, ap, [], ◌∷◌, ◌++◌, none, some, length, take}
use c_coroutine.Runtime.Types.{
  Ptr, Coroutine, World, Outcome, ok, fault, load, max_coroutines, queue_cap,
}
use c_coroutine.Runtime.Queue.Fifo.{IsRing, contents, q_push_fifo}
use c_coroutine.Runtime.Ops.{enqueue}
use c_coroutine.Runtime.Spec.{View}

module _ {L : Type 0} where
  abbrev pub view : World L → View L
  view w = record {
    registered = take w.count w.all;
    queue = contents w.run_queue;
    running = w.running;
    cell = w.heap;
    stacks = w.stacks;
  }

  -- The arrays have their sizes, and their indices are in range.
  pub record IsSound (w : World L) : Type 0 where
    pub ring : IsRing w.run_queue
    pub registry : length w.all ≡ max_coroutines
    pub count_in : w.count ≤ max_coroutines

  -- The call returns `a` in a sound state that is seen as `v`.
  abbrev pub Delivers : {A : Type 0} → Outcome L A → A → View L → Type 0
  Delivers o a v = (w' : World L) × (o ≡ ok a w') × IsSound w' × (view w' ≡ v)

  pub load-ok : (p : Ptr) (w : World L) {c : Coroutine L} → w.heap p ≡ some c → load p w ≡ ok c w
  unfolding load
  load-ok p w h = rw (h, load)

  pub load-fault : (p : Ptr) (w : World L) → w.heap p ≡ none → load p w ≡ fault
  unfolding load
  load-fault p w h = rw (h, load)

  pub enqueue-ok :
      (p : Ptr) {w : World L}
      → IsSound w
      → w.run_queue.q_size < queue_cap
      → Delivers (enqueue p w) tt (record (view w) { queue = contents w.run_queue ++ (p ∷ []) })
  unfolding enqueue
  enqueue-ok p {w} s h =
      let (q, e, r, c) = q_push_fifo p s.ring h in
      (
        record w { run_queue = q },
        rw (e, enqueue),
        record { ring = r; registry = s.registry; count_in = s.count_in },
        ap (λ ps. record (view w) { queue = ps }) c,
      )
