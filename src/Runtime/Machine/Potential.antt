-- ===== src/Runtime/Machine/Potential.antt =====
-- A number that every step of `co_run` makes smaller, for coroutines that make finitely many
-- calls of the library.
use c_coroutine.Base.{
  ℕ, ◌+◌, ◌*◌, ◌≡◌, ◌≢◌, refl, List, [], ◌∷◌, ◌++◌, true, Option, none, some, has, Distinct, arith,
  ap, ℕ-cases, inl, inr, ==_self, ==_ne,
}
use c_coroutine.Runtime.Types.{Ptr, CoState, ready, running, waiting, done, Coroutine, update}
use c_coroutine.Runtime.Spec.{wake_cells}

update-ne :
    {L : Type 0} (cell : Ptr → Option (Coroutine L)) (p : Ptr) (c : Coroutine L) (a : Ptr)
    → a ≢ p
    → update cell p (some c) a ≡ cell a
update-ne cell p c a ne = rw (==_ne a p ne)

module _ {L : Type 0} (budget : L → ℕ) where
  -- Three times the calls that a coroutine may still make, and what its state adds.
  abbrev pub cost : CoState → ℕ → ℕ
  cost ready b = 3 * b + 2
  cost running b = 3 * b + 1
  cost waiting b = 3 * b + 2
  cost done b = 0

  abbrev pub weight : Option (Coroutine L) → ℕ
  weight none = 0
  weight (some c) = cost c.state (budget c.ctx)

  abbrev pub potential : (Ptr → Option (Coroutine L)) → List Ptr → ℕ
  potential cell [] = 0
  potential cell (p ∷ ps) = weight (cell p) + potential cell ps

  pub potential_congr :
      (cell cell' : Ptr → Option (Coroutine L)) (ps : List Ptr)
      → ((a : Ptr) → has a ps ≡ true → weight (cell' a) ≡ weight (cell a))
      → potential cell' ps ≡ potential cell ps
  potential_congr cell cell' [] h = refl
  potential_congr cell cell' (p ∷ ps) h =
      omega
        (arith, h p (ground arith), potential_congr cell cell' ps (λ a m. h a (ground (arith, m))))

  pub potential-update :
      (cell : Ptr → Option (Coroutine L)) (p : Ptr) (c : Coroutine L) (ps : List Ptr)
      → Distinct ps
      → has p ps ≡ true
      → potential (update cell p (some c)) ps + weight (cell p)
        ≡ potential cell ps + weight (some c)
  potential-update cell p c [] d m = cc
  potential-update cell p c (q ∷ ps) d m = elim (ℕ-cases q p) [
    | inl e ↦
        let rest : potential (update cell p (some c)) ps ≡ potential cell ps =
          potential_congr cell (update cell p (some c)) ps
            (λ a m'. ap weight (update-ne cell p c a (ground (arith, m', d, e)))) in
        let here : update cell p (some c) q ≡ some c = rw (e, ==_self p) refl in
        omega (arith, rest, ap weight here, ap (λ a. weight (cell a)) e)
    | inr ne ↦ omega (
      arith,
      ap weight (update-ne cell p c q ne),
      potential-update cell p c ps d.1 (ground (arith, m)),
    )
  ]

  pub potential-append :
      (cell : Ptr → Option (Coroutine L)) (ps qs : List Ptr)
      → potential cell (ps ++ qs) ≡ potential cell ps + potential cell qs
  potential-append cell [] qs = omega arith
  potential-append cell (p ∷ ps) qs = omega (arith, potential-append cell ps qs)

  -- A coroutine that is woken weighs what it weighed.
  pub potential-wake :
      (f : Ptr) (qs : List Ptr) (cell : Ptr → Option (Coroutine L)) (ps : List Ptr)
      → potential (wake_cells f qs cell) ps ≡ potential cell ps
  potential-wake f qs cell ps = potential_congr cell (wake_cells f qs cell) ps (λ a m. ground arith)
