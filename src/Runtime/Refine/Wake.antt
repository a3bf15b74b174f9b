-- ===== src/Runtime/Refine/Wake.antt =====
-- `wakeup_waiters` and the end of `co_entry` do the operations of the specification.
use c_coroutine.Base.{
  ◌+◌, ◌≤◌, ◌<◌, ◌≡◌, ◌≢◌, refl, sym, ap, ap₂, subst, ◌∙◌, fun_ext, List, [], ◌∷◌, ◌++◌, append-nil,
  append_assoc, Option, some, arith, length, take, ◌==◌, if◌then◌else◌, true, false, Bool-cases,
  inl, inr, Distinct, has, keep, keep_congr, keep-append, ==_ne, length-append, length-take,
}
use c_coroutine.Runtime.Types.{Ptr, null, Coroutine, World, load, update, queue_cap, done, and_then}
use c_coroutine.Runtime.Queue.Fifo.{contents, q_push_fifo, length-window}
use c_coroutine.Runtime.Ops.{
  waits_for, woken, wake_one, wake_each, wakeup_waiters, co_entry, switch_to_main,
}
use c_coroutine.Runtime.Spec.{View, waits_at, is_waiter, wake_cells, wake_view, wake, finish_view}
use c_coroutine.Runtime.Refine.Defs.{view, IsSound, Delivers}

module _ {L : Type 0} where
  abbrev pub IsAllocated : (Ptr → Option (Coroutine L)) → Ptr → Type 0
  IsAllocated cell a = (c : Coroutine L) × (cell a ≡ some c)

  wake_cells-ne :
      (f p a : Ptr) (cell : Ptr → Option (Coroutine L))
      → a ≢ p
      → wake_cells f (p ∷ []) cell a ≡ cell a
  wake_cells-ne f p a cell ne = rw (==_ne a p ne)

  -- Waking a first coroutine and then others that differ from it is waking them all.
  wake_view-cons :
      (f p : Ptr) (ps : List Ptr) (v : View L)
      → has p ps ≡ false
      → wake_view f ps (wake_view f (p ∷ []) v) ≡ wake_view f (p ∷ ps) v
  wake_view-cons f p ps v out =
      ap₂ (λ q c. record v { queue = q; cell = c })
        (append_assoc v.queue _ _ ∙ ap (λ q. v.queue ++ q) queued)
        (fun_ext λ a. ground (arith, absent a))
    where
      absent : (a : Ptr) → has a ps ≡ true → a ≢ p
      absent a m e = cc (subst (λ x. has x ps ≡ true) e m, out)

      queued :
          keep (is_waiter v.cell f) (p ∷ []) ++ keep (is_waiter (wake_cells f (p ∷ []) v.cell) f) ps
          ≡ keep (is_waiter v.cell f) (p ∷ ps)
      queued =
          ap (λ ks. keep (is_waiter v.cell f) (p ∷ []) ++ ks)
            (keep_congr (is_waiter (wake_cells f (p ∷ []) v.cell) f) (is_waiter v.cell f) ps
              (λ a m. ap (waits_at f) (wake_cells-ne f p a v.cell (absent a m))))
          ∙ sym (keep-append (is_waiter v.cell f) (p ∷ []) ps)

  pub wake_one_refines :
      (f p : Ptr) {w : World L} (c : Coroutine L)
      → IsSound w
      → w.heap p ≡ some c
      → w.run_queue.q_size < queue_cap
      → Delivers (wake_one f p w) tt (wake_view f (p ∷ []) (view w))
  unfolding wake_one
  wake_one_refines f p {w} c s h room = elim (Bool-cases (waits_for f c)) [
    | inl yes_waits ↦
        let (q, e, r, cs) = q_push_fifo p s.ring room in
        (
          record w { run_queue = q; heap = update w.heap p (some (woken c)) },
          ground (arith, e, h),
          record { ring = r; registry = s.registry; count_in = s.count_in },
          ap₂ (λ ps g. record (view w) { queue = ps; cell = g }) (ground (arith, cs, h))
              (fun_ext λ a. ground (arith, h)),
        )
    | inr not_waits ↦ (
      w,
      ground (arith, h),
      s,
      ap₂ (λ ps g. record (view w) { queue = ps; cell = g })
          (ground (arith, h, append-nil (contents w.run_queue))) (fun_ext λ a. ground (arith, h)),
    )
  ]

  -- Waking does not free anything.
  wake-IsAllocated :
      (f p a : Ptr) (cell : Ptr → Option (Coroutine L))
      → IsAllocated cell a
      → IsAllocated (wake_cells f (p ∷ []) cell) a
  wake-IsAllocated f p a cell (c, e) =
      (if a == p then (if waits_for f c then woken c else c) else c, ground (arith, e))

  pub wake-room :
      (f p : Ptr) (w w1 : World L)
      → view w1 ≡ wake_view f (p ∷ []) (view w)
      → w1.run_queue.q_size ≤ w.run_queue.q_size + 1
  wake-room f p w w1 v =
      let q = w.run_queue in
      let q1 = w1.run_queue in
      let added = keep (is_waiter w.heap f) (p ∷ []) in
      let at_most_one : length added ≤ 1 = ground arith in
      omega (
        arith,
        ap (λ (u : View L). length u.queue) v,
        length-append (contents q) added,
        length-window q.queue q.q_head q.q_size,
        length-window q1.queue q1.q_head q1.q_size,
        at_most_one,
      )

  pub wake_each_refines :
      (f : Ptr) (ps : List Ptr) {w : World L}
      → IsSound w
      → Distinct ps
      → ((a : Ptr) → has a ps ≡ true → IsAllocated w.heap a)
      → w.run_queue.q_size + length ps ≤ queue_cap
      → Delivers (wake_each f ps w) tt (wake_view f ps (view w))
  unfolding wake_each
  wake_each_refines f [] {w} s d h room = (
    w,
    refl,
    s,
    ap (λ q. record (view w) { queue = q }) (sym (append-nil (contents w.run_queue))),
  )
  wake_each_refines f (p ∷ ps) {w} s d h room =
      let (c, hc) = h p (ground arith) in
      let (w1, e1, s1, v1) = wake_one_refines f p c s hc (omega arith) in
      let still : (a : Ptr) → has a ps ≡ true → IsAllocated w1.heap a = λ a m.
        let (c', e') = wake-IsAllocated f p a w.heap (h a (ground (arith, m))) in
        (c', ap (λ (u : View L). u.cell a) v1 ∙ e') in
      let (w2, e2, s2, v2) =
        wake_each_refines f ps s1 d.1 still (omega (arith, wake-room f p w w1 v1)) in
      (
        w2,
        ap (λ o. and_then o (λ _. wake_each f ps)) e1 ∙ e2,
        s2,
        v2 ∙ ap (wake_view f ps) v1 ∙ wake_view-cons f p ps (view w) d.0,
      )

  -- What the loop over the registered coroutines needs.
  pub record IsWakeable (w : World L) : Type 0 where
    pub sound : IsSound w
    pub distinct : Distinct (take w.count w.all)
    pub allocated : (a : Ptr) → has a (take w.count w.all) ≡ true → IsAllocated w.heap a
    pub room : w.run_queue.q_size + w.count ≤ queue_cap

  pub wakeup_waiters_refines :
      (f : Ptr) {w : World L} → IsWakeable w → Delivers (wakeup_waiters f w) tt (wake f (view w))
  unfolding wakeup_waiters
  wakeup_waiters_refines f {w} k =
      wake_each_refines f (take w.count w.all) k.sound k.distinct k.allocated
        (omega (arith, k.room, length-take w.count w.all (omega (arith, k.sound))))

  -- If the registry is without repetition and all of it allocated, and the run queue has room for
  -- all of it, the end of co_entry makes the coroutine done, makes every coroutine that waits for
  -- it ready, queues these in the order of their creation behind those queued, and leaves nothing
  -- running.
  pub co_entry_refines :
      (p : Ptr) {w : World L} {c : Coroutine L}
      → IsWakeable w
      → w.heap p ≡ some c
      → Delivers (co_entry p w) tt (finish_view p c (view w))
  unfolding co_entry
  co_entry_refines p {w} {c} k h =
      let finished : Coroutine L = record c { state = done } in
      let w0 : World L = record w { heap = update w.heap p (some finished) } in
      let k0 : IsWakeable w0 = record {
        sound = record {
          ring = k.sound.ring;
          registry = k.sound.registry;
          count_in = k.sound.count_in;
        };
        distinct = k.distinct;
        allocated = λ a m.
            let (d, e) = k.allocated a m in (if a == p then finished else d, ground (arith, e));
        room = k.room;
      } in
      let (w1, e1, s1, v1) = wakeup_waiters_refines p k0 in
      (
        record w1 { running = null },
        rw (h, load) (ap (λ o. and_then o (λ _. switch_to_main)) e1),
        record { ring = s1.ring; registry = s1.registry; count_in = s1.count_in },
        ap (λ (u : View L). record u { running = null }) v1,
      )
