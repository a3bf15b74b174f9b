-- ===== src/Runtime/Machine/Termination.antt =====
-- `co_run` ends for every set of coroutines that make finitely many allowed calls.
use c_coroutine.Base.{
  ℕ, zero, suc, ◌+◌, ◌<◌, ◌≡◌, ◌≢◌, refl, ap, sym, ◌∙◌, subst, [], none, some, has, arith, true,
  ◌⊎◌, inl, inr, take,
}
use c_coroutine.Runtime.Types.{Ptr, null, Coroutine, World, ok, done, waiting}
use c_coroutine.Runtime.Spec.{View}
use c_coroutine.Runtime.Queue.Fifo.{contents}
use c_coroutine.Runtime.Refine.Defs.{view}
use c_coroutine.Runtime.Invariant.Defs.{state_at, awaits_at}
use c_coroutine.Runtime.Machine.{Program, step, returned, co_run}
use c_coroutine.Runtime.Machine.Effects.{memory}
use c_coroutine.Runtime.Machine.Good.{IsGood}
use c_coroutine.Runtime.Machine.Safety.{AllowedNow, halt, dispatch, call, step_refines}
use c_coroutine.Runtime.Machine.Spending.{Spends, total, effect-Spends, resume-spends}

module _ {L U : Type 0} (P : Program L U) where
  -- What the program has to show: an invariant of its own, under which each call is allowed and
  -- spends from the caller's budget.
  pub record Behaves (budget : L → ℕ) (I : U → World L → Type 0) : Type 0 where
    pub allowed : (u : U) (w : World L) → IsGood w → I u w → AllowedNow P u w
    pub spends :
        (u : U) (w : World L) (c : Coroutine L)
        → IsGood w
        → I u w
        → w.heap w.running ≡ some c
        → Spends budget P c (P.next c.ctx u)
    pub keeps :
        (u u' : U) (w w' : World L) → IsGood w → I u w → step P u w ≡ ok (some u') w' → I u' w'

  -- The loop ended: a good state in which nothing runs and nothing is queued.
  abbrev pub Finishes : ℕ → U → World L → Type 0
  Finishes fuel u w =
      (u' : U) × (w' : World L) × (co_run P fuel u w ≡ returned w' u')
      × IsGood w'
      × (w'.running ≡ null)
      × (contents w'.run_queue ≡ [])

  co_run-halt :
      (fuel : ℕ) (u : U) (w w' : World L)
      → step P u w ≡ ok none w'
      → co_run P (suc fuel) u w ≡ returned w' u
  unfolding co_run
  co_run-halt fuel u w w' e = rw (e, co_run) refl

  co_run-step :
      (fuel : ℕ) (u u' : U) (w w' : World L)
      → step P u w ≡ ok (some u') w'
      → co_run P (suc fuel) u w ≡ co_run P fuel u' w'
  unfolding co_run
  co_run-step fuel u u' w w' e = rw (e, co_run) refl

  -- The same, with a state of the invariant that looks like the last one.
  abbrev pub Ends : (U → World L → Type 0) → ℕ → U → World L → Type 0
  Ends I fuel u w =
      (u' : U) × (w' : World L) × (co_run P fuel u w ≡ returned w' u')
      × IsGood w'
      × (w'.running ≡ null)
      × (contents w'.run_queue ≡ [])
      × (last : World L) × IsGood last
      × I u' last
      × (view w' ≡ view last)

  after_step :
      {I : U → World L → Type 0} (fuel : ℕ) (u u' : U) (w w' : World L)
      → step P u w ≡ ok (some u') w'
      → Ends I fuel u' w'
      → Ends I (suc fuel) u w
  after_step fuel u u' w w' e (u2, w2, e2, g, idle, q, last, gl, il, same) =
      (u2, w2, co_run-step fuel u u' w w' e ∙ e2, g, idle, q, last, gl, il, same)

  module _ (budget : L → ℕ) (I : U → World L → Type 0) (b : Behaves budget I) where
    pub co_run-Ends :
        (fuel : ℕ) (u : U) (w : World L)
        → IsGood w
        → I u w
        → total budget P (view w) < fuel
        → Ends I fuel u w
    co_run-Ends zero u w g i lt = absurd (omega arith)
    co_run-Ends (suc fuel) u w g i lt =
        let (o, w', e, g', spec) = step_refines P u g (b.allowed u w g i) in
        let less : total budget P (view w') < total budget P (view w)
            → total budget P (view w') < fuel =
          λ l. omega arith in
        elim spec [
          | halt idle q eo v ↦ (
            u,
            w',
            co_run-halt fuel u w w' (subst (λ x. step P u w ≡ ok x w') eo e),
            g',
            ap (λ (x : View L). x.running) v ∙ idle,
            ap (λ (x : View L). x.queue) v ∙ q,
            w,
            g,
            i,
            v,
          )
          | dispatch p rest c idle q h eo v ↦
              let e' = subst (λ x. step P u w ≡ ok x w') eo e in
              let l =
                subst (λ x. total budget P x < total budget P (view w)) (sym v)
                  (resume-spends budget P g.consistent p rest q h) in
              after_step fuel u u w w' e'
                (co_run-Ends fuel u w' g' (b.keeps u u w w' g i e') (less l))
          | call c ne h eo v ↦
              let r = P.next c.ctx u in
              let e' = subst (λ x. step P u w ≡ ok x w') eo e in
              let l =
                subst (λ x. total budget P x < total budget P (view w)) (sym v)
                  (effect-Spends budget P g.consistent ne h r (b.allowed u w g i c ne h)
                    (b.spends u w c g i h)) in
              after_step fuel u (memory r) w w' e'
                (co_run-Ends fuel (memory r) w' g' (b.keeps u (memory r) w w' g i e') (less l))
        ]

    -- For a program with an invariant under which each call is allowed and spends from a budget,
    -- co_run started in a good state with more fuel than the potential of that state returns, in a
    -- good state in which nothing runs and nothing is queued.
    pub co_run_terminates :
        (fuel : ℕ) (u : U) (w : World L)
        → IsGood w
        → I u w
        → total budget P (view w) < fuel
        → Finishes fuel u w
    co_run_terminates fuel u w g i enough =
        let (u', w', e, g', idle, q, _, _, _, _) = co_run-Ends fuel u w g i enough in
        (u', w', e, g', idle, q)

-- In a good state in which nothing runs and nothing is queued, every registered coroutine is done,
-- or it is suspended on a registered coroutine that is not done.
pub quiescent :
    {L : Type 0} {w : World L}
    → IsGood w
    → w.running ≡ null
    → contents w.run_queue ≡ []
    → (a : Ptr) → has a (take w.count w.all) ≡ true
    → (state_at (w.heap a) ≡ some done)
      ⊎ ((state_at (w.heap a) ≡ some waiting)
          × (has (awaits_at (w.heap a)) (take w.count w.all) ≡ true)
          × (state_at (w.heap (awaits_at (w.heap a))) ≢ some done))
quiescent {w} g idle q a m =
    let k = g.consistent in
    ground (
      arith,
      k.allocated a m,
      k.ready_queued a m,
      k.only_runs a m,
      k.waits a m,
      k.not_null,
      ap (has a) q,
    )

-- If the coroutines do not wait for one another in a circle, all of them are done.
all_done_below :
    {L : Type 0} {w : World L} (rank : Ptr → ℕ)
    → IsGood w
    → w.running ≡ null
    → contents w.run_queue ≡ []
    → ((a : Ptr)
        → has a (take w.count w.all) ≡ true
        → state_at (w.heap a) ≡ some waiting
        → rank (awaits_at (w.heap a)) < rank a)
    → (n : ℕ) (a : Ptr) → rank a < n
    → has a (take w.count w.all) ≡ true
    → state_at (w.heap a) ≡ some done
all_done_below rank g idle q falls zero a lt m = absurd (omega arith)
all_done_below {w} rank g idle q falls (suc n) a lt m = elim (quiescent g idle q a m) [
  | inl d ↦ d
  | inr (wt, reg, nd) ↦ absurd (
      nd (
        all_done_below rank g idle q falls n (awaits_at (w.heap a)) (omega (arith, falls a m wt))
          reg))
]

-- In a good state in which nothing runs and nothing is queued, if some rank falls from every
-- suspended coroutine to the one that it waits for, every registered coroutine is done.
pub all_done :
    {L : Type 0} {w : World L} (rank : Ptr → ℕ)
    → IsGood w
    → w.running ≡ null
    → contents w.run_queue ≡ []
    → ((a : Ptr)
        → has a (take w.count w.all) ≡ true
        → state_at (w.heap a) ≡ some waiting
        → rank (awaits_at (w.heap a)) < rank a)
    → (a : Ptr) → has a (take w.count w.all) ≡ true
    → state_at (w.heap a) ≡ some done
all_done rank g idle q falls a m = all_done_below rank g idle q falls (rank a + 1) a (omega arith) m
