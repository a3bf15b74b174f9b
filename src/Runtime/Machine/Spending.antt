-- ===== src/Runtime/Machine/Spending.antt =====
-- Each allowed call of a coroutine with a budget makes the potential smaller.
use c_coroutine.Base.{
  ℕ, ◌+◌, ◌*◌, ◌<◌, ◌≡◌, ◌≢◌, ap, sym, ◌∙◌, List, [], ◌∷◌, false, ◌||◌, none, some, has, length,
  ◌==◌, arith, Bool-cases, inl, inr,
}
use c_coroutine.Runtime.Types.{Ptr, null, CoState, ready, running, waiting, done, Coroutine, update}
use c_coroutine.Runtime.Spec.{View, resume_view, fresh}
use c_coroutine.Runtime.Invariant.Defs.{IsConsistent}
use c_coroutine.Runtime.Machine.{
  Request, return, yield, await, create, free, ask_id, ask_state, Program,
}
use c_coroutine.Runtime.Machine.Effects.{save, is_done_at, ask_at, effect, Allowed}
use c_coroutine.Runtime.Invariant.Switch.{head_is_ready}
use c_coroutine.Runtime.Machine.Potential.{
  cost, weight, potential, potential_congr, potential-update, potential-append, potential-wake,
}

module _ {L U : Type 0} (budget : L → ℕ) (P : Program L U) where
  -- The call leaves the caller less to spend; a new coroutine is paid for by its creator.
  abbrev pub Spends : Coroutine L → Request L U → Type 0
  Spends c (return u) = Unit
  Spends c (yield l u) = budget l < budget c.ctx
  Spends c (await p l u) = budget l < budget c.ctx
  Spends c (create co_mem stack_mem fn arg stack_size k u) =
      (p : Ptr) → budget (k p) + budget (P.enter fn arg) < budget c.ctx
  Spends c (free p l u) = Unit
  Spends c (ask_id k u) = (i : ℕ) → budget (k i) < budget c.ctx
  Spends c (ask_state p k u) = (s : CoState) → budget (k s) < budget c.ctx

  abbrev pub total : View L → ℕ
  total v = potential budget v.cell v.registered

  module _ {v : View L} (k : IsConsistent v) {c : Coroutine L} (ne : v.running ≢ null)
      (h : v.cell v.running ≡ some c) where
    weight_before : weight budget (v.cell v.running) ≡ 3 * budget c.ctx + 1
    weight_before =
        let st : c.state ≡ running = ground (arith, h, (k.runs ne).1) in
        ap (weight budget) h ∙ ap (λ s. cost budget s (budget c.ctx)) st

    rewritten :
        (c' : Coroutine L)
        → potential budget (update v.cell v.running (some c')) v.registered + (3 * budget c.ctx + 1)
          ≡ total v + weight budget (some c')
    rewritten c' =
        ap (λ n. potential budget (update v.cell v.running (some c')) v.registered + n)
          (sym weight_before)
        ∙ potential-update budget v.cell v.running c' v.registered k.distinct (k.runs ne).0

    -- Writing the running coroutine twice is writing it once.
    rewritten_twice :
        (c1 c2 : Coroutine L)
        → potential budget
            (update (update v.cell v.running (some c1)) v.running (some c2))
            v.registered
          ≡ potential budget (update v.cell v.running (some c2)) v.registered
    rewritten_twice c1 c2 =
        potential_congr budget (update v.cell v.running (some c2))
          (update (update v.cell v.running (some c1)) v.running (some c2)) v.registered
          (λ a m. ap (weight budget) (ground arith))

    saved-spends : (l : L) → budget l < budget c.ctx → total (save c l v) < total v
    saved-spends l lt =
        let st : c.state ≡ running = ground (arith, h, (k.runs ne).1) in
        omega (arith, rewritten (record c { ctx = l }), ap (λ s. cost budget s (budget l)) st)

    return-spends : (u : U) → total (effect P c (return u) v) < total v
    return-spends u = omega (
      arith,
      rewritten (record c { state = done }),
      potential-wake budget v.running v.registered
          (update v.cell v.running (some (record c { state = done }))) v.registered,
    )

    yield-spends :
        (l : L) (u : U) → budget l < budget c.ctx → total (effect P c (yield l u) v) < total v
    yield-spends l u lt =
        let c1 : Coroutine L = record c { ctx = l } in
        let c2 : Coroutine L = record c { state = ready; ctx = l } in
        omega (arith, rewritten c2, rewritten_twice c1 c2)

    await-spends :
        (p : Ptr) (l : L) (u : U)
        → budget l < budget c.ctx
        → total (effect P c (await p l u) v) < total v
    await-spends p l u lt =
        let c1 : Coroutine L = record c { ctx = l } in
        let c2 : Coroutine L = record c { state = waiting; awaiting = p; ctx = l } in
        elim (Bool-cases (is_done_at ((save c l v).cell p))) [
          | inl d ↦ rw d (saved-spends l lt)
          | inr n ↦ rw n (omega (arith, rewritten c2, rewritten_twice c1 c2))
        ]

    module _ (co_mem stack_mem : Ptr) (fn arg stack_size : ℕ) (k' : Ptr → L) (u : U) where
      create-spends :
          v.cell co_mem ≡ none
          → ((p : Ptr) → budget (k' p) + budget (P.enter fn arg) < budget c.ctx)
          → total (effect P c (create co_mem stack_mem fn arg stack_size k' u) v) < total v
      create-spends unused lt =
          let c1 : Coroutine L = record c { ctx = k' co_mem } in
          let made : Coroutine L =
            fresh (length v.registered + 1) stack_mem fn arg stack_size (P.enter fn arg) in
          let cell' = update (update v.cell co_mem (some made)) v.running (some c1) in
          let outside : has co_mem v.registered ≡ false =
            ground (arith, k.allocated co_mem, unused) in
          let others : potential budget cell' v.registered
              ≡ potential budget (update v.cell v.running (some c1)) v.registered =
            potential_congr budget (update v.cell v.running (some c1)) cell' v.registered
              (λ a m. ap (weight budget) (ground (arith, outside, m))) in
          let at_new : cell' co_mem ≡ some made = ground (arith, unused, h) in
          let st : c.state ≡ running = ground (arith, h, (k.runs ne).1) in
          elim (Bool-cases ((co_mem == null) || (stack_mem == null))) [
            | inl out ↦ rw out (saved-spends (k' null) (omega (arith, lt null)))
            | inr got ↦ rw got (
                omega (
                  arith,
                  lt co_mem,
                  others,
                  rewritten c1,
                  ap (λ s. cost budget s (budget (k' co_mem))) st,
                  ap (weight budget) at_new,
                  potential-append budget cell' v.registered (co_mem ∷ []),
                ))
          ]

    pub effect-Spends :
        (r : Request L U) → Allowed v r → Spends c r → total (effect P c r v) < total v
    effect-Spends (return u) a s = return-spends u
    effect-Spends (yield l u) a s = yield-spends l u s
    effect-Spends (await p l u) a s = await-spends p l u s
    effect-Spends (create co_mem stack_mem fn arg stack_size k' u) (nf, room, unused) s =
        create-spends co_mem stack_mem fn arg stack_size k' u unused s
    effect-Spends (free p l u) a s = absurd a
    effect-Spends (ask_id k' u) a s = saved-spends (k' c.id) (s c.id)
    effect-Spends (ask_state p k' u) a s = saved-spends _ (s (ask_at (v.cell p)))

  -- Taking a coroutine off the queue and running it makes the potential smaller by one.
  pub resume-spends :
      {v : View L} (k : IsConsistent v) (p : Ptr) (rest : List Ptr) {c : Coroutine L}
      → v.queue ≡ p ∷ rest
      → v.cell p ≡ some c
      → total (resume_view p c rest v) < total v
  resume-spends {v} k p rest {c} q h =
      let (m, st, out, d) = head_is_ready k p rest q in
      let st' : c.state ≡ ready = ground (arith, h, st) in
      omega (
        arith,
        potential-update budget v.cell p (record c { state = running }) v.registered k.distinct m,
        ap (weight budget) h,
        ap (λ s. cost budget s (budget c.ctx)) st',
      )
