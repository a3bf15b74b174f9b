-- ===== src/Runtime/Machine/Calls.antt =====
-- Creation by the running coroutine, and every allowed call.
use c_coroutine.Base.{
  ℕ, ◌<◌, ◌≡◌, ◌≢◌, refl, ap, ◌∙◌, true, false, ◌||◌, some, ◌==◌, arith, length-take, Bool-cases,
  inl, inr, ==_ne,
}
use c_coroutine.Runtime.Types.{Ptr, null, max_coroutines, Coroutine, World, and_then, pure, ◌>>◌}
use c_coroutine.Runtime.Spec.{View}
use c_coroutine.Runtime.Refine.Defs.{view}
use c_coroutine.Runtime.Refine.Create.{co_create_refines, co_create-no_memory}
use c_coroutine.Runtime.Machine.{
  Request, return, yield, await, create, free, ask_id, ask_state, Program, advance, perform,
}
use c_coroutine.Runtime.Machine.Effects.{save, Allowed}
use c_coroutine.Runtime.Machine.Good.{IsGood, size-le-count, saved, advance-ok, saved-IsSound}
use c_coroutine.Runtime.Machine.Refine.{
  Performs, perform-return, perform-yield, perform-await, perform-ask_id, perform-ask_state,
}

module _ {L U : Type 0} {w : World L} (g : IsGood w) {c : Coroutine L} (ne : w.running ≢ null)
    (h : w.heap w.running ≡ some c) (P : Program L U) where
  module _ (co_mem stack_mem : Ptr) (fn arg stack_size : ℕ) (k : Ptr → L) (u : U) where
    abbrev request : Request L U
    request = create co_mem stack_mem fn arg stack_size k u

    perform-create_fails :
        Allowed (view w) request
        → ((co_mem == null) || (stack_mem == null)) ≡ true
        → Performs g ne h P request
    unfolding perform
    perform-create_fails (nf, room, unused) out =
        let e =
          co_create-no_memory g.sound co_mem stack_mem fn arg stack_size (P.enter fn arg) nf
            (omega (arith, length-take w.count w.all (omega (arith, g.sound)))) unused
            (ground arith) in
        (
          saved w c (k null),
          ap (λ o. and_then o (λ p. advance (k p) >> pure u)) e
              ∙ ap (λ o. and_then o (λ _. pure u)) (advance-ok w c (k null) h),
          saved-IsSound w c (k null) g.sound,
          rw out refl,
        )

    perform-create_succeeds :
        Allowed (view w) request
        → ((co_mem == null) || (stack_mem == null)) ≡ false
        → Performs g ne h P request
    unfolding perform
    perform-create_succeeds (nf, room, unused) got =
        let few : w.count < max_coroutines =
          omega (arith, length-take w.count w.all (omega (arith, g.sound))) in
        let (w1, e, s, v) =
          co_create_refines g.sound co_mem stack_mem fn arg stack_size (P.enter fn arg) nf few
            (ground arith) (ground arith) (omega (arith, size-le-count g)) in
        let other : w.running ≢ co_mem = ground (arith, unused, h) in
        let h1 : w1.heap w1.running ≡ some c =
          ap (λ (x : View L). x.cell x.running) v ∙ rw (==_ne _ _ other) h in
        (
          saved w1 c (k co_mem),
          ap (λ o. and_then o (λ p. advance (k p) >> pure u)) e
              ∙ ap (λ o. and_then o (λ _. pure u)) (advance-ok w1 c (k co_mem) h1),
          saved-IsSound w1 c (k co_mem) s,
          ap (save c (k co_mem)) v ∙ rw got refl,
        )

  -- An allowed call succeeds and has its effect.
  pub perform_refines : (r : Request L U) → Allowed (view w) r → Performs g ne h P r
  perform_refines (return u) a = perform-return g ne h P u
  perform_refines (yield l u) a = perform-yield g ne h P l u
  perform_refines (await p l u) a = perform-await g ne h P p l u a
  perform_refines (create co_mem stack_mem fn arg stack_size k u) a =
      elim (Bool-cases ((co_mem == null) || (stack_mem == null))) [
        | inl out ↦ perform-create_fails co_mem stack_mem fn arg stack_size k u a out
        | inr got ↦ perform-create_succeeds co_mem stack_mem fn arg stack_size k u a got
      ]
  perform_refines (free p l u) a = absurd a
  perform_refines (ask_id k u) a = perform-ask_id g ne h P k u
  perform_refines (ask_state p k u) a = perform-ask_state g ne h P p k u a
