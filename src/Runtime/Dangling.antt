-- ===== src/Runtime/Dangling.antt =====
-- `co_free` leaves the pointer in the registry of src/coroutine.c, and `wakeup_waiters` reads
-- through every pointer of the registry.
use c_coroutine.Base.{
  ℕ, ◌+◌, ◌≤◌, ◌≡◌, ◌≢◌, refl, ap, ◌∙◌, List, [], ◌∷◌, none, some, arith, length, has, true, take,
  length-take, Option-cases, inl, inr, ==_ne,
}
use c_coroutine.Runtime.Types.{
  Ptr, null, done, Coroutine, World, ok, fault, queue_cap, load, update, and_then,
}
use c_coroutine.Runtime.Ops.{wake_one, wake_each, wakeup_waiters, co_entry, co_free, switch_to_main}
use c_coroutine.Runtime.Spec.{View}
use c_coroutine.Runtime.Refine.Defs.{IsSound}
use c_coroutine.Runtime.Refine.Wake.{wake_one_refines, wake-room}
use c_coroutine.Runtime.Refine.Create.{co_free-done}
use c_coroutine.Runtime.Machine.Good.{IsGood, size-le-count}

module _ {L : Type 0} where
  wake_one-fault : (f p : Ptr) (w : World L) → w.heap p ≡ none → wake_one f p w ≡ fault
  unfolding wake_one load
  wake_one-fault f p w h = rw (h, load) refl

  -- A loop over a list with a pointer to freed memory in it ends in an invalid read.
  wake_each-fault :
      (f p : Ptr) (ps : List Ptr) {w : World L}
      → IsSound w
      → has p ps ≡ true
      → w.heap p ≡ none
      → w.run_queue.q_size + length ps ≤ queue_cap
      → wake_each f ps w ≡ fault
  unfolding wake_each
  wake_each-fault f p [] s m h room = cc
  wake_each-fault f p (q ∷ ps) {w} s m h room = elim (Option-cases (w.heap q)) [
    | inl e ↦ ap (λ r. and_then r (λ _. wake_each f ps)) (wake_one-fault f q w e)
    | inr (c, e) ↦
        let (w1, e1, s1, v1) = wake_one_refines f q c s e (omega arith) in
        let still : w1.heap p ≡ none = ap (λ (u : View L). u.cell p) v1 ∙ ground (arith, h) in
        ap (λ r. and_then r (λ _. wake_each f ps)) e1
        ∙ wake_each-fault f p ps s1 (ground (arith, m, h, e)) still
            (omega (arith, wake-room f q w w1 v1))
  ]

  pub wakeup_waiters-fault :
      (f p : Ptr) {w : World L}
      → IsSound w
      → has p (take w.count w.all) ≡ true
      → w.heap p ≡ none
      → w.run_queue.q_size + w.count ≤ queue_cap
      → wakeup_waiters f w ≡ fault
  unfolding wakeup_waiters
  wakeup_waiters-fault f p {w} s m h room =
      wake_each-fault f p (take w.count w.all) s m h
        (omega (arith, length-take w.count w.all (omega (arith, s))))

  -- The world after `co_free` of `d` at `p`.
  abbrev pub freed : Ptr → Coroutine L → World L → World L
  freed p d w = record w { heap = update w.heap p none; stacks = update w.stacks d.stack none }

  -- In a good state, if a registered coroutine p is done and its stack is allocated, co_free p
  -- succeeds, and in the state that it leaves the end of any other allocated coroutine q is an
  -- invalid read: wakeup_waiters goes through the registry, which still holds p.
  pub co_entry-after-co_free :
      (p q : Ptr) {w : World L} {d c : Coroutine L} {size : ℕ}
      → IsGood w
      → has p (take w.count w.all) ≡ true
      → w.heap p ≡ some d
      → d.state ≡ done
      → w.stacks d.stack ≡ some size
      → q ≢ p
      → w.heap q ≡ some c
      → (co_free p w ≡ ok tt (freed p d w)) × (co_entry q (freed p d w) ≡ fault)
  unfolding co_entry
  co_entry-after-co_free p q {w} {d} {c} g m hp dn hs ne hq =
      let np : p ≢ null = ground (arith, m, g.consistent.not_null) in
      let finished : Coroutine L = record c { state = done } in
      let w0 : World L = record w {
        heap = update (update w.heap p none) q (some finished);
        stacks = update w.stacks d.stack none;
      } in
      let s0 : IsSound w0 = record {
        ring = g.sound.ring;
        registry = g.sound.registry;
        count_in = g.sound.count_in;
      } in
      let dangling : wakeup_waiters q w0 ≡ fault =
        wakeup_waiters-fault q p s0 m (ground arith) (omega (arith, size-le-count g, g.sound)) in
      let hq' : (freed p d w).heap q ≡ some c = rw (==_ne _ _ ne) hq in
      (
        co_free-done p w np hp dn hs,
        rw (hq', load) (ap (λ r. and_then r (λ _. switch_to_main)) dangling),
      )
