-- ===== src/Examples/OnScheduler/Turns.antt =====
-- Steps of co_run as turns of the coroutines.
use c_coroutine.Base.{
  ℕ, zero, suc, ◌≡◌, ◌≢◌, refl, sym, ap, ◌∙◌, subst, List, [], ◌∷◌, Option, none, some, set, false,
  Bool-cases, inl, inr, arith, ◌==◌, if◌then◌else◌,
}
use c_coroutine.Runtime.Types.{Ptr, null, running, done, is_state, Coroutine, World, ok, update}
use c_coroutine.Runtime.Spec.{View, resume_view, write_cell}
use c_coroutine.Runtime.Refine.Defs.{view}
use c_coroutine.Runtime.Invariant.Defs.{IsConsistent}
use c_coroutine.Runtime.Invariant.Switch.{head_is_ready}
use c_coroutine.Runtime.Machine.{Program, step}
use c_coroutine.Runtime.Machine.Effects.{memory, effect, Allowed}
use c_coroutine.Runtime.Machine.Good.{IsGood}
use c_coroutine.Runtime.Machine.Safety.{AllowedNow, halt, dispatch, call, step_refines}
use c_coroutine.Examples.Crowd.{Body, resume, crowd_turn, set_same}
use c_coroutine.Examples.Turns.{turns}
use c_coroutine.Examples.OnScheduler.{request, program, after, local_of, locals_of, crowd_of}
use c_coroutine.Examples.OnScheduler.Locals.{Placed, placed, locals_congr, locals_of-wake_cells}

module _ {L : Type 0} where
  -- The second of two writes to a place holds.
  locals_of-written :
      (cell : Ptr → Option (Coroutine L)) (p : Ptr) (x y : Option (Coroutine L)) (ps : List Ptr)
      → locals_of (update (update cell p x) p y) ps ≡ locals_of (update cell p y) ps
  locals_of-written cell p x y ps =
      locals_congr (update (update cell p x) p y) (update cell p y) ps
        (λ a _. elim (Bool-cases (a == p)) [ inl here ↦ rw here refl | inr apart ↦ rw apart refl ])

module _ {L U : Type 0} where
  -- Starting a coroutine changes nothing of what it keeps.
  crowd_of-resume_view :
      (u : U) {v : View L} (p : Ptr) (rest : List Ptr) (c : Coroutine L)
      → IsConsistent v
      → v.queue ≡ p ∷ rest
      → v.cell p ≡ some c
      → crowd_of u (resume_view p c rest v) ≡ crowd_of u v
  crowd_of-resume_view u {v} p rest c k q h =
      let (m, st, out, d) = head_is_ready k p rest q in
      let (i, (get, write)) = placed v.cell p v.registered k.distinct m in
      let alive : is_state c.state done ≡ false = ground (arith, h, st) in
      let here : local_of (v.cell p) ≡ some c.ctx =
        ap local_of h ∙ ap (λ b. if b then none else some c.ctx) alive in
      let same : locals_of (resume_view p c rest v).cell v.registered
          ≡ locals_of v.cell v.registered =
        write (some (record c { state = running }))
        ∙ set_same (locals_of v.cell v.registered) i (get ∙ here) in
      ap (λ (ls : List (Option L)). record { locals = ls; shared = u }) same

  -- A call of the running coroutine writes its place.
  request-effect :
      (P : Program L U) (c : Coroutine L) (r : Option L × U) (v : View L) (i : ℕ)
      → Placed v.cell v.running v.registered i
      → crowd_of (memory (request r)) (effect P c (request r) v)
        ≡ record { locals = set (locals_of v.cell v.registered) i r.0; shared = r.1 }
  request-effect P c (none, u) v i (get, write) =
      ap (λ (ls : List (Option L)). record { locals = ls; shared = u })
        (locals_of-wake_cells v.running v.registered
            (write_cell v.running (record c { state = done }) v).cell v.registered
          ∙ write (some (record c { state = done })))
  request-effect P c (some l, u) v i (get, write) =
      ap (λ (ls : List (Option L)). record { locals = ls; shared = u })
        (locals_of-written v.cell v.running _ _ v.registered ∙ write _)

  -- A call of the running coroutine is its turn.
  call_is_turn :
      (enter : ℕ → ℕ → L) (body : Body L U) (u : U) {v : View L} (c : Coroutine L)
      → IsConsistent v
      → v.running ≢ null
      → v.cell v.running ≡ some c
      → (i : ℕ) × (crowd_of
            (memory (request (body c.ctx u)))
            (effect (program enter body) c (request (body c.ctx u)) v)
          ≡ crowd_turn body i (crowd_of u v))
  unfolding crowd_turn
  call_is_turn enter body u {v} c k ne h =
      let (i, (get, write)) = placed v.cell v.running v.registered k.distinct (k.runs ne).0 in
      let alive : is_state c.state done ≡ false = ground (arith, h, k.runs ne) in
      let here : local_of (v.cell v.running) ≡ some c.ctx =
        ap local_of h ∙ ap (λ b. if b then none else some c.ctx) alive in
      (
        i,
        request-effect (program enter body) c (body c.ctx u) v i (get, write)
            ∙ sym (ap (λ o. resume body i o (crowd_of u v)) (get ∙ here)),
      )

  module _ (enter : ℕ → ℕ → L) (body : Body L U) where
    request-Allowed : (v : View L) (r : Option L × U) → Allowed v (request r)
    request-Allowed v (none, u) = tt
    request-Allowed v (some l, u) = tt

    always_allowed : (u : U) (w : World L) → AllowedNow (program enter body) u w
    always_allowed u w c ne h = request-Allowed (view w) (body c.ctx u)

    -- For a body that only calls co_yield and returns, whatever any number of steps of co_run from
    -- a good state does to what the coroutines keep and to the shared memory, some sequence of
    -- turns of the coroutines does.
    pub runs_turns :
        (n : ℕ) (u : U) (w : World L)
        → IsGood w
        → (schedule : List ℕ) × (crowd_of
              (after (program enter body) n u w).0
              (view (after (program enter body) n u w).1)
            ≡ turns (crowd_turn body) schedule (crowd_of u (view w)))
    unfolding after
    runs_turns zero u w g = ([], refl)
    runs_turns (suc n) u w g =
        let P = program enter body in
        let (o, w', e, g', spec) = step_refines P u g (always_allowed u w) in
        elim spec [
          | halt idle q eo v ↦
              let e' = subst (λ x. step P u w ≡ ok x w') eo e in rw (after, e') ([], refl)
          | dispatch p rest c idle q h eo v ↦
              let e' = subst (λ x. step P u w ≡ ok x w') eo e in
              let (schedule, later) = runs_turns n u w' g' in
              let same = crowd_of-resume_view u p rest c g.consistent q h in
              rw (after, e')
                (schedule, later ∙ ap (turns (crowd_turn body) schedule) (ap (crowd_of u) v ∙ same))
          | call c ne h eo v ↦
              let r = P.next c.ctx u in
              let e' = subst (λ x. step P u w ≡ ok x w') eo e in
              let (schedule, later) = runs_turns n (memory r) w' g' in
              let (i, turn) = call_is_turn enter body u c g.consistent ne h in
              rw (after, e')
                (
                  i ∷ schedule,
                  later ∙ ap (turns (crowd_turn body) schedule) (ap (crowd_of (memory r)) v ∙ turn),
                )
        ]
