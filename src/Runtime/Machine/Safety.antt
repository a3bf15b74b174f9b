-- ===== src/Runtime/Machine/Safety.antt =====
-- What the scheduler guarantees to a program whose calls are allowed.
use c_coroutine.Base.{
  ◌≡◌, ◌≢◌, refl, ap, List, [], ◌∷◌, false, ◌||◌, Option, none, some, ◌==◌, if◌then◌else◌, arith,
  Bool-cases, inl, inr, ==_ne, ==_iff, ℕ-cases, ◌⊎◌, sym, subst,
}
use c_coroutine.Runtime.Types.{Ptr, null, done, Coroutine, World, ok, load, and_then, pure}
use c_coroutine.Runtime.Spec.{View, resume_view}
use c_coroutine.Runtime.Queue.Fifo.{contents}
use c_coroutine.Runtime.Refine.Defs.{view}
use c_coroutine.Runtime.Refine.Round.{co_run_round-empty, co_run_round_refines}
use c_coroutine.Runtime.Invariant.Defs.{state_at, IsConsistent}
use c_coroutine.Runtime.Invariant.Switch.{
  yield-IsConsistent, await-IsConsistent, resume-IsConsistent, head_is_ready,
}
use c_coroutine.Runtime.Invariant.Create.{create-IsConsistent}
use c_coroutine.Runtime.Invariant.Finish.{finish-IsConsistent}
use c_coroutine.Runtime.Invariant.Save.{save-IsConsistent}
use c_coroutine.Runtime.Machine.{
  Request, return, yield, await, create, free, ask_id, ask_state, Program, step,
}
use c_coroutine.Runtime.Machine.Effects.{memory, save, is_done_at, effect, Allowed}
use c_coroutine.Runtime.Machine.Good.{IsGood, registered-IsAllocated}
use c_coroutine.Runtime.Machine.Calls.{perform_refines}

not_done : {L : Type 0} (o : Option (Coroutine L)) → is_done_at o ≡ false → state_at o ≢ some done
not_done none h = ground arith
not_done (some c) h = ground arith

module _ {L U : Type 0} (P : Program L U) where
  -- The effect of an allowed call keeps the invariant.
  effect-IsConsistent :
      {v : View L} {c : Coroutine L} (r : Request L U)
      → IsConsistent v
      → v.running ≢ null
      → v.cell v.running ≡ some c
      → Allowed v r
      → IsConsistent (effect P c r v)
  effect-IsConsistent (return u) k ne h a = finish-IsConsistent k ne h
  effect-IsConsistent {c} (yield l u) k ne h a =
      yield-IsConsistent (save-IsConsistent l k h) {c = record c { ctx = l }} ne (ground arith)
  effect-IsConsistent {v} {c} (await p l u) k ne h a =
      elim (Bool-cases (is_done_at ((save c l v).cell p))) [
        | inl d ↦ rw d (save-IsConsistent l k h)
        | inr n ↦ rw n (
            await-IsConsistent (save-IsConsistent l k h) {c = record c { ctx = l }} ne
              (ground arith) p a (not_done _ n))
      ]
  effect-IsConsistent {v} {c} (create co_mem stack_mem fn arg stack_size k' u) k ne h
        (nf, room, unused) =
      elim (Bool-cases ((co_mem == null) || (stack_mem == null))) [
        | inl out ↦ rw out (save-IsConsistent (k' null) k h)
        | inr got ↦ rw got (
            save-IsConsistent {c = c} (k' co_mem)
              (create-IsConsistent k co_mem unused stack_mem fn arg stack_size (P.enter fn arg)
                (ground arith) room)
              (rw (==_ne v.running co_mem (ground (arith, unused, h))) h))
      ]
  effect-IsConsistent (free p l u) k ne h a = absurd a
  effect-IsConsistent {c} (ask_id k' u) k ne h a = save-IsConsistent (k' c.id) k h
  effect-IsConsistent (ask_state p k' u) k ne h a = save-IsConsistent _ k h

  -- What the running coroutine asks for next is allowed.
  abbrev pub AllowedNow : U → World L → Type 0
  AllowedNow u w =
      (c : Coroutine L)
      → w.running ≢ null
      → w.heap w.running ≡ some c
      → Allowed (view w) (P.next c.ctx u)

  -- One step of the specification, and what is left of the shared memory: `none` when the loop
  -- of `co_run` ends.
  pub data SpecStep (u : U) (v : View L) (o : Option U) (v' : View L) : Type 0 where
    halt : v.running ≡ null → v.queue ≡ [] → o ≡ none → v' ≡ v → SpecStep u v o v'
    dispatch :
        (p : Ptr) (rest : List Ptr) (c : Coroutine L)
        → v.running ≡ null
        → v.queue ≡ p ∷ rest
        → v.cell p ≡ some c
        → o ≡ some u
        → v' ≡ resume_view p c rest v
        → SpecStep u v o v'
    call :
        (c : Coroutine L)
        → v.running ≢ null
        → v.cell v.running ≡ some c
        → o ≡ some (memory (P.next c.ctx u))
        → v' ≡ effect P c (P.next c.ctx u) v
        → SpecStep u v o v'

  -- The step returns, and takes a good state to a good state as the specification says.
  abbrev pub StepsWell : U → World L → Type 0
  StepsWell u w =
      (o : Option U) × (w' : World L) × (step P u w ≡ ok o w')
      × IsGood w'
      × SpecStep u (view w) o (view w')

  step-halts :
      (u : U) {w : World L}
      → IsGood w
      → w.running ≡ null
      → contents w.run_queue ≡ []
      → StepsWell u w
  unfolding step
  step-halts u {w} g idle q =
      let (w', e, s, v) = co_run_round-empty g.sound q in
      (
        none,
        w',
        rw ((==_iff w.running null).1 idle)
            (ap (λ o. and_then o (λ more. pure (if more then some u else none))) e),
        record { sound = s; consistent = subst IsConsistent (sym v) g.consistent },
        halt idle q refl v,
      )

  step-dispatches :
      (u : U) {w : World L} (p : Ptr) (rest : List Ptr)
      → IsGood w
      → w.running ≡ null
      → contents w.run_queue ≡ p ∷ rest
      → StepsWell u w
  unfolding step
  step-dispatches u {w} p rest g idle q =
      let k = g.consistent in
      let (m, st, out, d) = head_is_ready k p rest q in
      let (c, h) = registered-IsAllocated g p m in
      let (w', e, s, v) =
        co_run_round_refines g.sound p rest q (ground (arith, m, k.not_null)) h
          (ground (arith, h, st)) in
      (
        some u,
        w',
        rw ((==_iff w.running null).1 idle)
            (ap (λ o. and_then o (λ more. pure (if more then some u else none))) e),
        record {
          sound = s;
          consistent = subst IsConsistent (sym v) (resume-IsConsistent k p rest q h idle);
        },
        dispatch p rest c idle q h refl v,
      )

  step-calls : (u : U) {w : World L} → IsGood w → w.running ≢ null → AllowedNow u w → StepsWell u w
  unfolding step load
  step-calls u {w} g ne allowed =
      let k = g.consistent in
      let (c, h) = registered-IsAllocated g w.running (k.runs ne).0 in
      let r = P.next c.ctx u in
      let a = allowed c ne h in
      let (w', e, s, v) = perform_refines g ne h P r a in
      (
        some (memory r),
        w',
        rw (==_ne _ _ ne, h, load) (ap (λ o. and_then o (λ u'. pure (some u'))) e),
        record {
          sound = s;
          consistent = subst IsConsistent (sym v) (effect-IsConsistent r k ne h a);
        },
        call c ne h refl v,
      )

  list-cases : (ps : List Ptr) → (ps ≡ []) ⊎ ((p : Ptr) × (rest : List Ptr) × (ps ≡ p ∷ rest))
  list-cases [] = inl refl
  list-cases (p ∷ rest) = inr (p, rest, refl)

  -- From a good state, if the next call of the running coroutine is allowed, one step of co_run
  -- returns (no assertion fails and no freed object is read), the state that it leaves is good,
  -- and its view is what the specification's step gives: the loop ends with nothing queued, or the
  -- oldest queued coroutine runs, or the call has its effect.
  pub step_refines : (u : U) {w : World L} → IsGood w → AllowedNow u w → StepsWell u w
  step_refines u {w} g allowed = elim (ℕ-cases w.running null) [
    | inl idle ↦ elim (list-cases (contents w.run_queue)) [
      | inl q ↦ step-halts u g idle q
      | inr (p, rest, q) ↦ step-dispatches u p rest g idle q
    ]
    | inr ne ↦ step-calls u g ne allowed
  ]
