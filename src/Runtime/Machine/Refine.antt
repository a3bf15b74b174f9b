-- ===== src/Runtime/Machine/Refine.antt =====
-- An allowed call of the running coroutine succeeds, and has the effect of the specification.
use c_coroutine.Base.{ℕ, ◌≡◌, ◌≢◌, refl, ap, ◌∙◌, some, arith, Bool-cases, inl, inr, sym, ==_ne}
use c_coroutine.Runtime.Types.{
  Ptr, null, CoState, done, is_state, Coroutine, World, ok, load, and_then, pure, ◌>>◌,
}
use c_coroutine.Runtime.Ops.{co_yield, co_await, co_id, co_state}
use c_coroutine.Runtime.Refine.Defs.{view, Delivers}
use c_coroutine.Runtime.Refine.Switch.{co_yield_refines, co_await_refines, co_await-done}
use c_coroutine.Runtime.Refine.Wake.{co_entry_refines}
use c_coroutine.Runtime.Machine.{
  Request, return, yield, await, ask_id, ask_state, Program, advance, perform,
}
use c_coroutine.Runtime.Machine.Effects.{memory, save, is_done_at, ask_at, effect, Allowed}
use c_coroutine.Runtime.Machine.Good.{
  IsGood, size-le-count, registered-IsAllocated, IsGood-IsWakeable, saved, advance-ok, saved_self,
  saved-IsSound, saved-IsGood,
}

module _ {L : Type 0} {w : World L} (g : IsGood w) {c : Coroutine L} (ne : w.running ≢ null)
    (h : w.heap w.running ≡ some c) where
  module _ {U : Type 0} (P : Program L U) where
    -- The call leaves the world that the specification says, and the caller's memory.
    abbrev pub Performs : Request L U → Type 0
    Performs r = Delivers (perform P r w) (memory r) (effect P c r (view w))

    pub perform-return : (u : U) → Performs (return u)
    unfolding perform
    perform-return u =
        let (w', e, s, v) = co_entry_refines w.running (IsGood-IsWakeable g) h in
        (w', ap (λ o. and_then o (λ _. pure u)) e, s, v)

    pub perform-yield : (l : L) (u : U) → Performs (yield l u)
    unfolding perform
    perform-yield l u =
        let g1 = saved-IsGood w c l g h in
        let (w', e, s, v) =
          co_yield_refines g1.sound ne (saved_self w c l)
            (omega (arith, size-le-count g, g.sound.count_in)) in
        (
          w',
          ap (λ o. and_then o (λ _. co_yield >> pure u)) (advance-ok w c l h)
              ∙ ap (λ o. and_then o (λ _. pure u)) e,
          s,
          v,
        )

    pub perform-await :
        (p : Ptr) (l : L) (u : U) → Allowed (view w) (await p l u) → Performs (await p l u)
    unfolding perform
    perform-await p l u m =
        let g1 = saved-IsGood w c l g h in
        let (o, ho) = registered-IsAllocated g1 p m in
        let np : p ≢ null = ground (arith, m, g.consistent.not_null) in
        elim (Bool-cases (is_state o.state done)) [
          | inl d ↦ (
            saved w c l,
            ap (λ o. and_then o (λ _. co_await p >> pure u)) (advance-ok w c l h)
                ∙ ap (λ o. and_then o (λ _. pure u))
                    (co_await-done g1.sound p np ho (ground arith)),
            g1.sound,
            rw (ap is_done_at ho ∙ d) refl,
          )
          | inr n ↦
              let (w', e, s, v) =
                co_await_refines g1.sound p np ho (ground arith) ne (saved_self w c l) in
              (
                w',
                ap (λ o. and_then o (λ _. co_await p >> pure u)) (advance-ok w c l h)
                    ∙ ap (λ o. and_then o (λ _. pure u)) e,
                s,
                v ∙ rw (ap is_done_at ho ∙ n) refl,
              )
        ]

    pub perform-ask_id : (k : ℕ → L) (u : U) → Performs (ask_id k u)
    unfolding perform
    perform-ask_id k u =
        let e : co_id w ≡ ok c.id w = unfold co_id in rw (==_ne _ _ ne, h, load) refl in
        (
          saved w c (k c.id),
          ap (λ o. and_then o (λ i. advance (k i) >> pure u)) e
              ∙ ap (λ o. and_then o (λ _. pure u)) (advance-ok w c (k c.id) h),
          saved-IsSound w c (k c.id) g.sound,
          refl,
        )

    pub perform-ask_state :
        (p : Ptr) (k : CoState → L) (u : U)
        → Allowed (view w) (ask_state p k u)
        → Performs (ask_state p k u)
    unfolding perform
    perform-ask_state p k u m =
        let (o, ho) = registered-IsAllocated g p m in
        let np : p ≢ null = ground (arith, m, g.consistent.not_null) in
        let e : co_state p w ≡ ok o.state w = unfold co_state in rw (==_ne _ _ np, ho, load) refl in
        (
          saved w c (k o.state),
          ap (λ r. and_then r (λ i. advance (k i) >> pure u)) e
              ∙ ap (λ r. and_then r (λ _. pure u)) (advance-ok w c (k o.state) h),
          saved-IsSound w c (k o.state) g.sound,
          ap (λ r. save c (k (ask_at r)) (view w)) (sym ho),
        )
