-- ===== src/Runtime/Machine/Settled.antt =====
-- What `co_run` of src/coroutine.c leaves of the coroutines when it returns.
use c_coroutine.Base.{
  ℕ, ◌<◌, ◌≡◌, ◌≢◌, sym, ap, subst, List, [], ◌∷◌, true, ◌||◌, some, has, arith, ◌⊎◌, ==_self,
}
use c_coroutine.Runtime.Types.{Ptr, World, done, waiting}
use c_coroutine.Runtime.Spec.{View}
use c_coroutine.Runtime.Refine.Defs.{view}
use c_coroutine.Runtime.Invariant.Defs.{state_at, awaits_at}
use c_coroutine.Runtime.Machine.{Program, returned, co_run}
use c_coroutine.Runtime.Machine.Good.{IsGood}
use c_coroutine.Runtime.Machine.Spending.{total}
use c_coroutine.Runtime.Machine.Termination.{Behaves, co_run-Ends, quiescent, all_done}

abbrev pub Each : (Ptr → Type 0) → List Ptr → Type 0
Each R [] = Unit {0}
Each R (p ∷ ps) = R p × Each R ps

Each-member : (R : Ptr → Type 0) (ps : List Ptr) → ((a : Ptr) → has a ps ≡ true → R a) → Each R ps
Each-member R [] h = tt
Each-member R (p ∷ ps) h =
    (h p (ap (λ b. b || has p ps) (==_self p)), Each-member R ps (λ a m. h a (ground (arith, m))))

module _ {L : Type 0} where
  -- The coroutine at `a` is done.
  abbrev pub IsDone : View L → Ptr → Type 0
  IsDone v a = state_at (v.cell a) ≡ some done

  -- It is done, or it is suspended on a registered coroutine that is not done.
  abbrev pub IsSettled : View L → Ptr → Type 0
  IsSettled v a =
      IsDone v a
      ⊎ (state_at (v.cell a) ≡ some waiting)
        × (has (awaits_at (v.cell a)) v.registered ≡ true)
        × (state_at (v.cell (awaits_at (v.cell a))) ≢ some done)

  -- The rank falls from every suspended coroutine to the one that it waits for.
  abbrev pub Falls : (Ptr → ℕ) → View L → Type 0
  Falls rank v =
      (a : Ptr)
      → has a v.registered ≡ true
      → state_at (v.cell a) ≡ some waiting
      → rank (awaits_at (v.cell a)) < rank a

module _ {L U : Type 0} (P : Program L U) (budget : L → ℕ) (I : U → World L → Type 0) where
  -- For a program with an invariant under which each call is allowed and spends from a budget,
  -- co_run started in a good state with more fuel than the potential of that state returns, and
  -- every registered coroutine is then done, or suspended on a registered one that is not done.
  pub co_run_settles :
      Behaves P budget I
      → (fuel : ℕ) (u : U) (w : World L) → IsGood w
      → I u w
      → total budget P (view w) < fuel
      → (u' : U) × (w' : World L) × (co_run P fuel u w ≡ returned w' u')
        × Each (IsSettled (view w')) (view w').registered
  co_run_settles b fuel u w g i enough =
      let (u', w', e, g', idle, q, _, _, _, _) = co_run-Ends P budget I b fuel u w g i enough in
      (u', w', e, Each-member (IsSettled (view w')) (view w').registered (quiescent g' idle q))

  -- For a program with an invariant under which each call is allowed and spends from a budget, and
  -- some rank falls from every suspended coroutine to the one that it waits for, co_run started in
  -- a good state with more fuel than the potential of that state returns, and every registered
  -- coroutine is then done.
  pub co_run_completes :
      Behaves P budget I
      → (rank : Ptr → ℕ) → ((u : U) (w : World L) → IsGood w → I u w → Falls rank (view w))
      → (fuel : ℕ) (u : U) (w : World L) → IsGood w
      → I u w
      → total budget P (view w) < fuel
      → (u' : U) × (w' : World L) × (co_run P fuel u w ≡ returned w' u')
        × Each (IsDone (view w')) (view w').registered
  co_run_completes b rank falls fuel u w g i enough =
      let (u', w', e, g', idle, q, last, gl, il, same) =
        co_run-Ends P budget I b fuel u w g i enough in
      let fall : Falls rank (view w') = subst (Falls rank) (sym same) (falls u' last gl il) in
      (
        u',
        w',
        e,
        Each-member (IsDone (view w')) (view w').registered (all_done rank g' idle q fall),
      )
