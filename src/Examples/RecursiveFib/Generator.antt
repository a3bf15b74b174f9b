-- ===== src/Examples/RecursiveFib/Generator.antt =====
-- The numbers that run_generator of examples/recursive_fib.c prints.
use c_coroutine.Base.{
  ℕ, zero, suc, ◌+◌, ◌≤◌, ◌<◌, ◌≡◌, refl, ap, ◌∙◌, List, [], ◌∷◌, none, some, true, false, ◌++◌,
  arith, lt→ltb, le→ltb, ltb, inl, inr, if◌then◌else◌, Bool-cases, ltb→lt,
}
use c_coroutine.Examples.RecursiveFib.{
  GenFrame, FibGenState, fresh, yielded, finished, overflowed, fib_gen_from, fib_gen, drive,
  run_generator,
}
use c_coroutine.Examples.RecursiveFib.Sequence.{fib, fibs, add_long-fits, add_long-over}

-- The generator between two numbers, with the last of `limit` out and at its end, and where the
-- next addition overflows.
abbrev at : ℕ → GenFrame
at i = yielded i (fib i) (fib (suc i))

abbrev giving : (limit out : ℕ) → FibGenState
giving limit out = record { limit = limit; out = out; done = false }

fib_gen-more :
    (i : ℕ) (s : FibGenState)
    → i ≤ 90
    → suc i < s.limit
    → fib_gen (at i) s ≡ (at (suc i), record s { out = fib (suc i) })
unfolding fib_gen fib_gen_from
fib_gen-more i s fits more =
    let next : i + 1 ≡ suc i = omega arith in
    rw
      (
        fib_gen,
        add_long-fits i (fib i) (fib (suc i)) (omega arith) fits,
        fib_gen_from,
        next,
        lt→ltb (suc i) s.limit more,
      )
      refl

fib_gen-last :
    (i : ℕ) (s : FibGenState)
    → i ≤ 90
    → suc i ≡ s.limit
    → fib_gen (at i) s ≡ (finished, record s { done = true })
unfolding fib_gen fib_gen_from
fib_gen-last i s fits last =
    rw
      (
        fib_gen,
        add_long-fits i (fib i) (fib (suc i)) (omega arith) fits,
        fib_gen_from,
        le→ltb (i + 1) s.limit (omega arith),
      )
      refl

fib_gen-over : (i : ℕ) (s : FibGenState) → 90 < i → fib_gen (at i) s ≡ (overflowed, s)
unfolding fib_gen
fib_gen-over i s over = rw (fib_gen, add_long-over i (fib i) (fib (suc i)) (omega arith) over) refl

-- One round of the loop, by what the resumption does.
drive-goes :
    (fuel : ℕ) (gen : GenFrame) (s : FibGenState) (printed : List ℕ) {r : GenFrame × FibGenState}
    → s.done ≡ false
    → fib_gen gen s ≡ r
    → drive (suc fuel) gen s printed
      ≡ drive fuel r.0 r.1 (if r.1.done then printed else printed ++ (r.1.out ∷ []))
unfolding drive
drive-goes fuel gen s printed going e = rw (drive, going, e) refl

-- At the yield for the number `i`, with `k` to come.
drive-yielded :
    (k i fuel limit out : ℕ)
    → i + suc k ≡ limit
    → limit ≤ 91
    → k + 1 < fuel
    → drive fuel (at i) (giving limit out) (fibs (suc i)) ≡ some (fibs limit)
unfolding drive
drive-yielded k i zero limit out e small enough = absurd (omega arith)
drive-yielded k i (suc zero) limit out e small enough = absurd (omega arith)
drive-yielded zero i (suc (suc fuel)) limit out e small enough =
    let last : suc i ≡ limit = omega arith in
    drive-goes (suc fuel) (at i) (giving limit out) (fibs (suc i)) refl
      (fib_gen-last i (giving limit out) (omega arith) last)
    ∙ ap (λ n. some (fibs n)) last
drive-yielded (suc k) i (suc (suc fuel)) limit out e small enough =
    drive-goes (suc fuel) (at i) (giving limit out) (fibs (suc i)) refl
      (fib_gen-more i (giving limit out) (omega arith) (omega arith))
    ∙ drive-yielded k (suc i) (suc fuel) limit (fib (suc i)) (omega arith) small (omega arith)

-- Past an overflow nothing is defined.
drive-overflowed :
    (fuel limit out : ℕ) (printed : List ℕ)
    → drive fuel overflowed (giving limit out) printed ≡ none
unfolding drive fib_gen
drive-overflowed zero limit out printed = refl
drive-overflowed (suc fuel) limit out printed =
    drive-overflowed fuel limit out (printed ++ (out ∷ []))

drive-over :
    (fuel i limit out : ℕ) (printed : List ℕ)
    → 91 < limit
    → i < limit
    → drive fuel (at i) (giving limit out) printed ≡ none
unfolding drive
drive-over zero i limit out printed large more = refl
drive-over (suc fuel) i limit out printed large more = elim (Bool-cases (ltb 90 i)) [
  | inl over ↦
      drive-goes fuel (at i) (giving limit out) printed refl
        (fib_gen-over i (giving limit out) (ltb→lt 90 i over))
      ∙ drive-overflowed fuel limit out (printed ++ (out ∷ []))
  | inr fits ↦
      drive-goes fuel (at i) (giving limit out) printed refl
        (fib_gen-more i (giving limit out) (ground (arith, fits)) (ground (arith, fits)))
      ∙ drive-over fuel (suc i) limit (fib (suc i)) (printed ++ (fib (suc i) ∷ [])) large
          (ground (arith, fits))
]

fib_gen-first :
    (limit : ℕ) → fib_gen fresh (giving (suc limit) 0) ≡ (at 0, giving (suc limit) (fib 0))
unfolding fib_gen fib_gen_from fib
fib_gen-first limit = rw (fib_gen, fib_gen_from, lt→ltb 0 (suc limit) (omega arith)) refl

-- With more than limit + 1 rounds of fuel, run_generator prints the first `limit` Fibonacci
-- numbers if the limit is below 92; from 92 on an addition in the generator overflows, and it does
-- not end in a defined way.
pub run_generator_lem :
    (fuel limit : ℕ)
    → limit + 1 < fuel
    → run_generator fuel limit ≡ (if ltb limit 92 then some (fibs limit) else none)
unfolding run_generator drive fib_gen fib_gen_from
run_generator_lem (suc zero) zero enough = absurd (omega arith)
run_generator_lem zero limit enough = absurd (omega arith)
run_generator_lem (suc (suc fuel)) zero enough = refl
run_generator_lem (suc fuel) (suc limit) enough =
    drive-goes fuel fresh (giving (suc limit) 0) [] refl (fib_gen-first limit)
    ∙ elim (Bool-cases (ltb (suc limit) 92)) [
      | inl small ↦ rw small (
          drive-yielded limit 0 fuel (suc limit) (fib 0) (omega arith) (ground (arith, small))
            (omega arith))
      | inr large ↦
          rw large (
            drive-over fuel 0 (suc limit) (fib 0) (fib 0 ∷ []) (ground (arith, large))
              (omega arith))
    ]
