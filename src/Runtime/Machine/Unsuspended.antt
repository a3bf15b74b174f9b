-- ===== src/Runtime/Machine/Unsuspended.antt =====
-- Programs that never call `co_await` of src/coroutine.c suspend no coroutine.
use c_coroutine.Base.{
  ◌≡◌, ◌≢◌, sym, ap, ◌∙◌, subst, Bool, true, false, Option, none, some, has, ◌==◌, Bool-cases, inl,
  inr,
}
use c_coroutine.Runtime.Types.{
  Ptr, waiting, running, done, Coroutine, World, Outcome, ok, failed, fault, update,
}
use c_coroutine.Runtime.Spec.{View, suspended_on, wake_if, write_cell, finish_view}
use c_coroutine.Runtime.Refine.Defs.{view}
use c_coroutine.Runtime.Invariant.Defs.{state_at}
use c_coroutine.Runtime.Machine.{
  Request, return, yield, await, create, free, ask_id, ask_state, Program, step,
}
use c_coroutine.Runtime.Machine.Effects.{save, effect}
use c_coroutine.Runtime.Machine.Good.{IsGood}
use c_coroutine.Runtime.Machine.Safety.{AllowedNow, halt, dispatch, call, step_refines}

module _ {L : Type 0} where
  abbrev pub NoneWaits : View L → Type 0
  NoneWaits v = (a : Ptr) → state_at (v.cell a) ≢ some waiting

  update-NoneWaits :
      (cell : Ptr → Option (Coroutine L)) (p : Ptr) (x : Option (Coroutine L))
      → ((a : Ptr) → state_at (cell a) ≢ some waiting)
      → state_at x ≢ some waiting
      → (a : Ptr) → state_at (update cell p x a) ≢ some waiting
  update-NoneWaits cell p x h new a = elim (Bool-cases (a == p)) [
    | inl here ↦ rw here new
    | inr apart ↦ rw apart (h a)
  ]

  wake_if-NoneWaits :
      (q : Ptr) (o : Option (Coroutine L))
      → state_at o ≢ some waiting
      → state_at (wake_if q o) ≢ some waiting
  wake_if-NoneWaits q none h = h
  wake_if-NoneWaits q (some c) h = elim (Bool-cases (suspended_on q c)) [
    | inl woken ↦ rw woken (λ e. cc e)
    | inr other ↦ rw other h
  ]

  finish_view-NoneWaits :
      (p : Ptr) (c : Coroutine L) (v : View L) → NoneWaits v → NoneWaits (finish_view p c v)
  finish_view-NoneWaits p c v h a =
      let ended : NoneWaits (write_cell p (record c { state = done }) v) =
        update-NoneWaits v.cell p (some (record c { state = done })) h (λ e. cc e) in
      elim (Bool-cases (has a v.registered)) [
        | inl here ↦ rw here (wake_if-NoneWaits p _ (ended a))
        | inr out ↦ rw out (ended a)
      ]

module _ {L U : Type 0} (P : Program L U) where
  -- A coroutine that returns or calls co_yield.
  abbrev pub is_plain : Request L U → Bool
  is_plain (return u) = true
  is_plain (yield l u) = true
  is_plain _ = false

  effect-NoneWaits :
      (c : Coroutine L) (r : Request L U) (v : View L)
      → is_plain r ≡ true
      → v.cell v.running ≡ some c
      → NoneWaits v
      → NoneWaits (effect P c r v)
  effect-NoneWaits c (return u) v plain here h = finish_view-NoneWaits v.running c v h
  effect-NoneWaits c (yield l u) v plain here h =
      let still : state_at (some (record c { ctx = l })) ≢ some waiting =
        λ e. h v.running (ap state_at here ∙ e) in
      update-NoneWaits (save c l v).cell v.running _
        (update-NoneWaits v.cell v.running (some (record c { ctx = l })) h still) (λ e. cc e)
  effect-NoneWaits c (await p l u) v plain here h = cc plain
  effect-NoneWaits c (create co_mem stack_mem fn arg stack_size k u) v plain here h = cc plain
  effect-NoneWaits c (free p l u) v plain here h = cc plain
  effect-NoneWaits c (ask_id k u) v plain here h = cc plain
  effect-NoneWaits c (ask_state p k u) v plain here h = cc plain

  abbrev world_of : World L → Outcome L (Option U) → World L
  world_of d (ok o w) = w
  world_of d (failed e) = d
  world_of d fault = d

  -- Steps of a program whose coroutines only return or call co_yield suspend no coroutine.
  pub step-NoneWaits :
      ((l : L) (u : U) → is_plain (P.next l u) ≡ true)
      → ((u : U) (w : World L) → AllowedNow P u w)
      → (u u' : U) (w w' : World L) → IsGood w
      → NoneWaits (view w)
      → step P u w ≡ ok (some u') w'
      → NoneWaits (view w')
  step-NoneWaits plain allowed u u' w w' g h e =
      let (o, w1, e1, g1, spec) = step_refines P u g (allowed u w) in
      let same : w1 ≡ w' = ap (world_of w) (sym e1 ∙ e) in
      subst (λ x. NoneWaits (view x)) same
        (elim spec [
          | halt idle q eo v ↦ subst NoneWaits (sym v) h
          | dispatch p rest c idle q here eo v ↦
              subst NoneWaits (sym v)
                (update-NoneWaits w.heap p (some (record c { state = running })) h (λ s. cc s))
          | call c ne here eo v ↦
              subst NoneWaits (sym v)
                (effect-NoneWaits c (P.next c.ctx u) (view w) (plain c.ctx u) here h)
        ])
