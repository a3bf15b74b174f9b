-- ===== src/Examples/OnScheduler/Locals.antt =====
-- What the coroutines of a view keep, when the view changes.
use c_coroutine.Base.{
  ℕ, zero, suc, ◌≡◌, refl, sym, ap, ap₂, ◌∙◌, List, [], ◌∷◌, true, false, ◌||◌, has, Distinct,
  Option, none, some, get_or, set, ◌==◌, ==_self, if◌then◌else◌, ℕ-cases, Bool-cases, inl, inr,
  arith,
}
use c_coroutine.Runtime.Types.{Ptr, done, is_state, Coroutine, update}
use c_coroutine.Runtime.Spec.{suspended_on, wake_if, wake_cells}
use c_coroutine.Examples.OnScheduler.{local_of, locals_of}

module _ {L : Type 0} where
  pub locals_congr :
      (f g : Ptr → Option (Coroutine L)) (ps : List Ptr)
      → ((a : Ptr) → has a ps ≡ true → local_of (f a) ≡ local_of (g a))
      → locals_of f ps ≡ locals_of g ps
  locals_congr f g [] h = refl
  locals_congr f g (p ∷ ps) h =
      ap₂ ◌∷◌ (h p (ap (λ b. b || has p ps) (==_self p)))
        (locals_congr f g ps (λ a m. h a (ground (arith, m))))

  -- A registered coroutine has a place, and a write to its object is one to that place.
  abbrev pub Placed : (Ptr → Option (Coroutine L)) → Ptr → List Ptr → ℕ → Type 0
  Placed cell p ps i =
      (get_or (locals_of cell ps) i none ≡ local_of (cell p))
      × ((x : Option (Coroutine L))
          → locals_of (update cell p x) ps ≡ set (locals_of cell ps) i (local_of x))

  pub placed :
      (cell : Ptr → Option (Coroutine L)) (p : Ptr) (ps : List Ptr)
      → Distinct ps
      → has p ps ≡ true
      → (i : ℕ) × Placed cell p ps i
  placed cell p [] d m = cc m
  placed cell p (q ∷ ps) (fresh, d) m = elim (ℕ-cases q p) [
    | inl e ↦
        let test : (q == p) ≡ true = ground arith in
        (
          zero,
          (
            ap (λ a. local_of (cell a)) e,
            λ x. ap₂ ◌∷◌ (ap (λ b. local_of (if b then x else cell q)) test) (
                locals_congr (update cell p x) cell ps (λ a here.
                  let apart : (a == p) ≡ false = ground (arith, fresh, here, e) in
                  ap (λ b. local_of (if b then x else cell a)) apart)),
          ),
        )
    | inr ne ↦
        let apart : (q == p) ≡ false = ground arith in
        let apart' : (p == q) ≡ false = ground arith in
        let (i, (get, write)) = placed cell p ps d (sym (ap (λ b. b || has p ps) apart') ∙ m) in
        (suc i, (get, λ x. ap₂ ◌∷◌ (ap (λ b. local_of (if b then x else cell q)) apart) (write x)))
  ]

  -- Waking changes nothing of what a coroutine keeps.
  local_of-wake_if : (q : Ptr) (o : Option (Coroutine L)) → local_of (wake_if q o) ≡ local_of o
  local_of-wake_if q none = refl
  local_of-wake_if q (some c) = elim (Bool-cases (suspended_on q c)) [
    | inr other ↦ rw other refl
    | inl woken ↦
        let waits : is_state c.state done ≡ false = ground (arith, woken) in rw (woken, waits) refl
  ]

  pub locals_of-wake_cells :
      (q : Ptr) (woken : List Ptr) (cell : Ptr → Option (Coroutine L)) (ps : List Ptr)
      → locals_of (wake_cells q woken cell) ps ≡ locals_of cell ps
  locals_of-wake_cells q woken cell ps = locals_congr (wake_cells q woken cell) cell ps (λ a _.
      elim (Bool-cases (has a woken)) [
        | inl here ↦ rw here (local_of-wake_if q (cell a))
        | inr out ↦ rw out refl
      ])
