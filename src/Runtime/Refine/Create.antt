-- ===== src/Runtime/Refine/Create.antt =====
-- `co_create` and `co_free` on every branch.
use c_coroutine.Base.{
  ℕ, ◌+◌, ◌<◌, ◌≡◌, ◌≢◌, ap, ◌∙◌, fun_ext, [], ◌∷◌, ◌++◌, sym, Option, none, some, arith, set, take,
  take-set, length-set, length-take, ==_self, ==_ne, lt→ltb, ◌⊎◌, inl, inr, ℕ-cases, length,
}
use native.Mathlib.Numerals.{add-one}
use c_coroutine.Runtime.Types.{
  Ptr, null, Coroutine, World, ok, failed, load, update, queue_cap, max_coroutines, done, too_many,
  free_unfinished,
}
use c_coroutine.Runtime.Queue.Fifo.{q_push_fifo}
use c_coroutine.Runtime.Ops.{
  enqueue, free_object, free_stack, co_create, co_free, effective_size, blank,
}
use c_coroutine.Runtime.Spec.{fresh, create_view}
use c_coroutine.Runtime.Refine.Defs.{view, IsSound, Delivers}

update-update :
    {V : Type 0} (f : Ptr → V) (p : Ptr) (u v : V) → update (update f p u) p v ≡ update f p v
update-update f p u v = fun_ext λ a. ground arith

-- Memory that was free, allocated and freed again is as it was.
update-free :
    {V : Type 0} (f : Ptr → Option V) (p : Ptr) (u : Option V)
    → f p ≡ none
    → update (update f p u) p none ≡ f
update-free f p u h =
    fun_ext
      λ a. elim (ℕ-cases a p) [ inl e ↦ rw (e, ==_self p) (sym h) | inr ne ↦ rw (==_ne a p ne) ]

module _ {L : Type 0} where
  module _ {w : World L} (s : IsSound w) (co_mem stack_mem : Ptr) (fn arg stack_size : ℕ)
      (entry : L) where
    pub co_create_refines :
        fn ≢ 0
        → w.count < max_coroutines
        → co_mem ≢ null
        → stack_mem ≢ null
        → w.run_queue.q_size < queue_cap
        → Delivers
            (co_create co_mem stack_mem fn arg stack_size entry w)
            co_mem
            (create_view co_mem stack_mem fn arg stack_size entry (view w))
    unfolding co_create
    co_create_refines nf room ncm nsm qroom =
        let (q, e, r, cs) = q_push_fifo co_mem s.ring qroom in
        let made : Coroutine L = fresh (w.count + 1) stack_mem fn arg stack_size entry in
        let listed : take (w.count + 1) (set w.all w.count co_mem)
            ≡ take w.count w.all ++ (co_mem ∷ []) =
          rw add-one (take-set w.count w.all co_mem (omega (arith, s.registry))) in
        let stored : update (update w.heap co_mem (some (blank entry))) co_mem (some made)
            ≡ update w.heap co_mem
                (some (fresh (length (take w.count w.all) + 1) stack_mem fn arg stack_size entry)) =
          rw (length-take w.count w.all (omega (arith, s.registry)))
            (update-update w.heap co_mem _ _) in
        (
          record w {
            run_queue = q;
            all = set w.all w.count co_mem;
            count = w.count + 1;
            heap = update (update w.heap co_mem (some (blank entry))) co_mem (some made);
            stacks = update w.stacks stack_mem (some (effective_size stack_size));
          },
          rw (==_ne _ _ nf, lt→ltb _ _ room, ==_ne _ _ ncm, ==_ne _ _ nsm, e, enqueue),
          record {
            ring = r;
            registry = length-set w.all w.count co_mem ∙ s.registry;
            count_in = omega arith;
          },
          (λ i. record {
            registered = listed i;
            queue = cs i;
            running = w.running;
            cell = stored i;
            stacks = update w.stacks stack_mem (some (effective_size stack_size));
          }),
        )

    -- In a state whose arrays are in order, with a function that is not null and room in the
    -- registry, if either allocation fails (the object's address being unused), co_create returns
    -- null and leaves the whole state, the memory included, as it was.
    pub co_create-no_memory :
        fn ≢ 0
        → w.count < max_coroutines
        → w.heap co_mem ≡ none
        → (co_mem ≡ null) ⊎ (stack_mem ≡ null)
        → co_create co_mem stack_mem fn arg stack_size entry w ≡ ok null w
    unfolding co_create
    co_create-no_memory nf room free n = elim (ℕ-cases co_mem null) [
      | inl e ↦ rw (==_ne _ _ nf, lt→ltb _ _ room, e)
      | inr ncm ↦
          let e : stack_mem ≡ null = elim n [ inl e ↦ absurd (ncm e) | inr e ↦ e ] in
          rw (==_ne _ _ nf, lt→ltb _ _ room, ==_ne _ _ ncm, e, free_object, ==_self co_mem)
            (ap (λ g. ok null (record w { heap = g })) (update-free w.heap co_mem _ free))
    ]

    -- In a state whose arrays are in order and whose registry is full, co_create of a function
    -- that is not null fails its assertion on the number of coroutines.
    pub co_create-too_many :
        fn ≢ 0
        → w.count ≡ max_coroutines
        → co_create co_mem stack_mem fn arg stack_size entry w ≡ failed too_many
    unfolding co_create
    co_create-too_many nf full = rw (==_ne _ _ nf, full)

  -- Only a coroutine that is done can be freed; its object and its stack are given back.
  pub co_free-done :
      (p : Ptr) (w : World L) {c : Coroutine L} {size : ℕ}
      → p ≢ null
      → w.heap p ≡ some c
      → c.state ≡ done
      → w.stacks c.stack ≡ some size
      → co_free p w
        ≡ ok tt (record w { heap = update w.heap p none; stacks = update w.stacks c.stack none })
  unfolding co_free
  co_free-done p w np h d hs = rw (==_ne _ _ np, h, load, d, hs, free_stack, free_object, h)

  -- co_free of an allocated coroutine at a non-null address that is not done fails its assertion.
  pub co_free-unfinished :
      (p : Ptr) (w : World L) {c : Coroutine L}
      → p ≢ null
      → w.heap p ≡ some c
      → c.state ≢ done
      → co_free p w ≡ failed free_unfinished
  unfolding co_free
  co_free-unfinished p w np h nd = ground (arith, h)
