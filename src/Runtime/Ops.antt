-- ===== src/Runtime/Ops.antt =====
-- The functions of src/coroutine.c. Each runs on the scheduler's globals and the memory behind
-- them. The `ctx` of the coroutine that is running stands for the registers and the stack that it
-- runs on, so a switch away from it has nothing to save, and continues in `resume`. The first
-- stack frame that `co_create` writes is modelled in Context.Entry.
use c_coroutine.Base.{
  ℕ, ◌+◌, List, [], ◌∷◌, ◌==◌, ltb, if◌then◌else◌, Bool, true, false, not, ◌&&◌, none, some, set,
  take,
}
use c_coroutine.Runtime.Types.{
  Ptr, null, CoState, ready, running, waiting, done, is_state, default_stack_size, max_coroutines,
  Coroutine, M, ok, failed, fault, pure, ◌>>=◌, ◌>>◌, assert, get, put, load, store, update,
  queue_overflow, null_fn, too_many, free_null, free_unfinished, not_ready, yield_outside,
  await_null, await_outside, state_null,
}
use c_coroutine.Runtime.Queue.{q_push, q_pop}

abbrev pub effective_size : ℕ → ℕ
effective_size stack_size = if stack_size == 0 then default_stack_size else stack_size

module _ {L : Type 0} where
  -- A call of `q_push`.
  unfoldable pub enqueue : Ptr → M L (Unit {0})
  enqueue co w = elim (q_push co w.run_queue) [
    | none ↦ failed queue_overflow
    | some q ↦ ok tt (record w { run_queue = q })
  ]

  abbrev pub waits_for : Ptr → Coroutine L → Bool
  waits_for finished c = is_state c.state waiting && (c.awaiting == finished)

  abbrev pub woken : Coroutine L → Coroutine L
  woken c = record c { state = ready; awaiting = null }

  -- One round of the loop in `wakeup_waiters`.
  unfoldable pub wake_one : Ptr → Ptr → M L (Unit {0})
  unfolding load store enqueue
  wake_one finished co = do
    c ← load co
    if waits_for finished c then (store co (woken c) >> enqueue co) else pure tt

  unfoldable pub wake_each : Ptr → List Ptr → M L (Unit {0})
  unfolding wake_one
  wake_each finished [] = pure tt
  wake_each finished (co ∷ rest) = wake_one finished co >> wake_each finished rest

  unfoldable pub wakeup_waiters : Ptr → M L (Unit {0})
  wakeup_waiters finished = do w ← get; wake_each finished (take w.count w.all)

  -- The switch back to the scheduler ends in the last statement of `resume`.
  unfoldable pub switch_to_main : M L (Unit {0})
  switch_to_main w = ok tt (record w { running = null })

  -- `co_entry` from the point where the coroutine's function has returned.
  unfoldable pub co_entry : Ptr → M L (Unit {0})
  unfolding load store switch_to_main
  co_entry co = do
    c ← load co
    store co (record c { state = done })
    wakeup_waiters co
    switch_to_main

  -- What `calloc` returns is filled with zeros; the context is written by the caller.
  abbrev pub blank : L → Coroutine L
  blank l = record {
    id = 0;
    state = ready;
    fn = 0;
    arg = 0;
    stack = null;
    stack_size = 0;
    awaiting = null;
    ctx = l;
  }

  unfoldable pub free_object : Ptr → M L (Unit {0})
  free_object co w = elim (w.heap co) [
    | none ↦ fault
    | some _ ↦ ok tt (record w { heap = update w.heap co none })
  ]

  unfoldable pub free_stack : Ptr → M L (Unit {0})
  free_stack p w = elim (w.stacks p) [
    | none ↦ fault
    | some _ ↦ ok tt (record w { stacks = update w.stacks p none })
  ]

  unfoldable pub alloc_stack : Ptr → ℕ → M L (Unit {0})
  alloc_stack p size w = ok tt (record w { stacks = update w.stacks p (some size) })

  -- `S.all[S.count++] = co`.
  unfoldable pub register : Ptr → M L (Unit {0})
  register co w = ok tt (record w { all = set w.all w.count co; count = w.count + 1 })

  -- `co_mem` and `stack_mem` are what `calloc` and `malloc` return, and `entry` is the context
  -- that starts `fn` on `arg`.
  unfoldable pub co_create : (co_mem stack_mem : Ptr) (fn arg stack_size : ℕ) (entry : L) → M L Ptr
  unfolding load store enqueue free_object alloc_stack register
  co_create co_mem stack_mem fn arg stack_size entry = do
    assert (not (fn == 0)) null_fn
    w ← get
    assert (ltb w.count max_coroutines) too_many
    let size = effective_size stack_size
    if co_mem == null then pure null else do
      store co_mem (blank entry)
      if stack_mem == null then (free_object co_mem >> pure null) else do
        alloc_stack stack_mem size
        store co_mem (record {
          id = w.count + 1;
          state = ready;
          fn = fn;
          arg = arg;
          stack = stack_mem;
          stack_size = size;
          awaiting = null;
          ctx = entry;
        })
        register co_mem
        enqueue co_mem
        pure co_mem

  unfoldable pub co_free : Ptr → M L (Unit {0})
  unfolding load free_stack free_object
  co_free co = do
    assert (not (co == null)) free_null
    c ← load co
    assert (is_state c.state done) free_unfinished
    free_stack c.stack
    free_object co

  -- `resume` up to the switch into `next`.
  unfoldable pub resume : Ptr → M L (Unit {0})
  unfolding load store
  resume next = do
    c ← load next
    store next (record c { state = running })
    w ← get
    put (record w { running = next })

  -- One test of the loop in `co_run`, and its body: false if the loop ends.
  unfoldable pub co_run_round : M L Bool
  unfolding load resume
  co_run_round = do
    w ← get
    let popped = q_pop w.run_queue
    put (record w { run_queue = popped.1 })
    if popped.0 == null then pure false else do
      c ← load popped.0
      assert (is_state c.state ready) not_ready
      resume popped.0
      pure true

  unfoldable pub co_yield : M L (Unit {0})
  unfolding load store enqueue switch_to_main
  co_yield = do
    w ← get
    assert (not (w.running == null)) yield_outside
    c ← load w.running
    store w.running (record c { state = ready })
    enqueue w.running
    switch_to_main

  unfoldable pub co_await : Ptr → M L (Unit {0})
  unfolding load store switch_to_main
  co_await other = do
    assert (not (other == null)) await_null
    o ← load other
    if is_state o.state done then pure tt else do
      w ← get
      assert (not (w.running == null)) await_outside
      c ← load w.running
      store w.running (record c { state = waiting; awaiting = other })
      switch_to_main

  unfoldable pub co_id : M L ℕ
  unfolding load
  co_id = do w ← get; if w.running == null then pure 0 else (do c ← load w.running; pure c.id)

  unfoldable pub co_state : Ptr → M L CoState
  unfolding load
  co_state co = do assert (not (co == null)) state_null; c ← load co; pure c.state
