-- ===== src/Runtime/Machine/Order.antt =====
-- The order in which `co_run` of src/coroutine.c picks the coroutines.
use c_coroutine.Base.{
  ℕ, zero, suc, ◌≡◌, refl, sym, ap, ap₂, ◌∙◌, subst, List, [], ◌∷◌, ◌++◌, append-nil, append_assoc,
  true, false, ◌||◌, ◌==◌, ==_iff, ==_ne, if◌then◌else◌, some, Bool-cases, inl, inr, keep,
}
use c_coroutine.Runtime.Types.{Ptr, null, done, Coroutine, World, ok}
use c_coroutine.Runtime.Spec.{View, is_waiter, write_cell}
use c_coroutine.Runtime.Queue.Fifo.{contents}
use c_coroutine.Runtime.Refine.Defs.{view}
use c_coroutine.Runtime.Machine.{
  Request, return, yield, await, create, free, ask_id, ask_state, Program, step,
}
use c_coroutine.Runtime.Machine.Effects.{memory, save, is_done_at, effect}
use c_coroutine.Runtime.Machine.Good.{IsGood}
use c_coroutine.Runtime.Machine.Safety.{halt, dispatch, call, step_refines}
use c_coroutine.Runtime.Machine.Termination.{Behaves}

module _ {L U : Type 0} (P : Program L U) where
  -- The coroutines that `n` steps pick, in order, and the state that they leave.
  unfoldable pub picked : ℕ → U → World L → List Ptr × World L
  picked zero u w = ([], w)
  picked (suc n) u w = elim (step P u w) [
    | ok (some u') w' ↦
        let later = picked n u' w' in
        (if w.running == null then w'.running ∷ later.0 else later.0, later.1)
    | _ ↦ ([], w)
  ]

  -- A call queues coroutines behind those that are queued.
  effect-queue :
      (c : Coroutine L) (r : Request L U) (v : View L)
      → (added : List Ptr) × ((effect P c r v).queue ≡ v.queue ++ added)
  effect-queue c (return u) v = (
    keep (is_waiter (write_cell v.running (record c { state = done }) v).cell v.running)
        v.registered,
    refl,
  )
  effect-queue c (yield l u) v = (v.running ∷ [], refl)
  effect-queue c (await p l u) v = elim (Bool-cases (is_done_at ((save c l v).cell p))) [
    | inl d ↦ rw d ([], sym (append-nil v.queue))
    | inr n ↦ rw n ([], sym (append-nil v.queue))
  ]
  effect-queue c (create co_mem stack_mem fn arg stack_size k u) v =
      elim (Bool-cases ((co_mem == null) || (stack_mem == null))) [
        | inl out ↦ rw out ([], sym (append-nil v.queue))
        | inr got ↦ rw got (co_mem ∷ [], refl)
      ]
  effect-queue c (free p l u) v = ([], sym (append-nil v.queue))
  effect-queue c (ask_id k u) v = ([], sym (append-nil v.queue))
  effect-queue c (ask_state p k u) v = ([], sym (append-nil v.queue))

  module _ (budget : L → ℕ) (I : U → World L → Type 0) (b : Behaves P budget I) where
    -- For a program with an invariant under which each call is allowed and spends from a budget,
    -- from a good state where the invariant holds: the coroutines queued there, followed by some
    -- that are queued later, are those that any number of steps of co_run pick, in order, followed
    -- by those that are queued in the state that the steps leave.
    pub picked_in_order :
        (n : ℕ) (u : U) (w : World L)
        → IsGood w
        → I u w
        → (added : List Ptr) × (contents w.run_queue ++ added
            ≡ (picked n u w).0 ++ contents (picked n u w).1.run_queue)
    unfolding picked
    picked_in_order zero u w g i = ([], append-nil (contents w.run_queue))
    picked_in_order (suc n) u w g i =
        let (o, w', e, g', spec) = step_refines P u g (b.allowed u w g i) in
        elim spec [
          | halt idle q eo v ↦
              let e' = subst (λ x. step P u w ≡ ok x w') eo e in
              rw (picked, e') ([], append-nil (contents w.run_queue))
          | dispatch p rest c idle q h eo v ↦
              let e' = subst (λ x. step P u w ≡ ok x w') eo e in
              let (added, later) = picked_in_order n u w' g' (b.keeps u u w w' g i e') in
              let test : (w.running == null) ≡ true = (==_iff w.running null).1 idle in
              rw (picked, e', test)
                (
                  added,
                  ap (λ ps. ps ++ added) q
                      ∙ ap₂ (λ x xs. x ∷ (xs ++ added)) (sym (ap (λ (x : View L). x.running) v))
                          (sym (ap (λ (x : View L). x.queue) v))
                      ∙ ap (λ ps. w'.running ∷ ps) later,
                )
          | call c ne h eo v ↦
              let r = P.next c.ctx u in
              let e' = subst (λ x. step P u w ≡ ok x w') eo e in
              let (added, later) =
                picked_in_order n (memory r) w' g' (b.keeps u (memory r) w w' g i e') in
              let (queued, more) = effect-queue c r (view w) in
              let test : (w.running == null) ≡ false = ==_ne w.running null ne in
              rw (picked, e', test)
                (
                  queued ++ added,
                  sym (append_assoc (contents w.run_queue) queued added)
                      ∙ ap (λ ps. ps ++ added) (sym (ap (λ (x : View L). x.queue) v ∙ more))
                      ∙ later,
                )
        ]
