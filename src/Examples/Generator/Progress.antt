-- ===== src/Examples/Generator/Progress.antt =====
-- The coroutines of examples/generator.c both return.
use c_coroutine.Base.{
  ℕ, ◌*◌, ◌+◌, ◌-◌, ◌<◌, ◌≡◌, refl, ap, ◌∙◌, List, Option, none, some, Bool, true, false, arith,
  length, ltb, ltb→lt, Bool-cases, Option-cases, inl, inr, ◌⊎◌,
}
use c_coroutine.Examples.Turns.{rounds_end, rounds, AllFair, Everyone, rounds_done}
use c_coroutine.Examples.Generator.{
  fib_count, GenLocals, Demo, fib_gen, consume, gen_done, fib_consumer, Who, generating, consuming,
  turn, started,
}
use c_coroutine.Examples.Generator.Printed.{
  prints_fibonacci, AllPrinted, Exact, turn-Exact, started-Exact, fib_gen-waits, fib_gen-makes,
  consume-takes, consume-nothing, turn-generating_none, turn-generating, turn-consuming_none,
  turn-consuming,
}

-- The turns that are left to the generator, to a number that is ready, and to the consumer.
abbrev making : Option GenLocals → ℕ
making none = 0
making (some l) = 2 * (fib_count - l.i) + 1

abbrev waiting : Bool → ℕ
waiting true = 1
waiting false = 0

abbrev printing : Option ℕ → ℕ
printing none = 0
printing (some k) = 1

abbrev work : Demo → ℕ
work s = making s.gen + waiting s.ch.ready + printing s.sum

gen-moves :
    (s : Demo)
    → ((s.gen ≡ none) ⊎ (s.ch.ready ≡ true)) × (turn generating s ≡ s)
      ⊎ (work (turn generating s) < work s)
unfolding fib_gen
gen-moves s = elim (Option-cases s.gen) [
  | inl e ↦ inl (inl e, turn-generating_none s e)
  | inr (l, e) ↦ elim (Bool-cases (ltb l.i fib_count)) [
    | inr stop ↦ inr (rw (turn-generating s e, fib_gen, stop) (omega (arith, ap making e)))
    | inl more ↦
        let less = ltb→lt l.i fib_count more in
        elim (Bool-cases s.ch.ready) [
          | inl full ↦ inl (inr full, turn-generating s e ∙ fib_gen-waits l s more full)
          | inr room ↦ inr (
              rw (turn-generating s e, fib_gen-makes l s more room)
                (omega (arith, ap making e, ap waiting room)))
        ]
  ]
]

-- What is left once the consumer has taken what is ready.
consume-work :
    (k : ℕ) (s : Demo)
    → s.sum ≡ some k
    → let s' = consume k s in
      (s'.gen ≡ s.gen)
      × (printing s'.sum ≡ 1)
      × ((s.ch.ready ≡ false) × (s' ≡ s) ⊎ (work s' < work s))
consume-work k s e = elim (Bool-cases s.ch.ready) [
  | inl full ↦
      rw (consume-takes k s full) (refl, refl, inr (omega (arith, ap waiting full, ap printing e)))
  | inr nil ↦ rw (consume-nothing k s nil) (refl, ap printing e, inl (nil, refl))
]

consumer-moves :
    (s : Demo)
    → ((s.sum ≡ none) ⊎ (s.ch.ready ≡ false) × (l : GenLocals) × (s.gen ≡ some l))
        × (turn consuming s ≡ s)
      ⊎ (work (turn consuming s) < work s)
unfolding fib_consumer
consumer-moves s = elim (Option-cases s.sum) [
  | inl e ↦ inl (inl e, turn-consuming_none s e)
  | inr (k, e) ↦
      let (g, one, moved) = consume-work k s e in
      elim (Option-cases s.gen) [
        | inl e' ↦
            let test : gen_done (consume k s) ≡ true = rw (g, e') refl in
            inr (
              rw (turn-consuming s e, fib_consumer, test)
                (elim moved [
                  | inl (_, same) ↦ omega (arith, one, ap work same)
                  | inr less ↦ omega (arith, one, less)
                ]))
        | inr (l, e') ↦
            let test : gen_done (consume k s) ≡ false = rw (g, e') refl in
            elim moved [
              | inl (nil, same) ↦
                  inl (inr (nil, l, e'), turn-consuming s e ∙ rw (fib_consumer, test) same)
              | inr less ↦ inr (rw (turn-consuming s e, fib_consumer, test) less)
            ]
      ]
]

abbrev pub BothReturned : Demo → Type 0
BothReturned s = (s.gen ≡ none) × (s.sum ≡ none)

turn-moves : (who : Who) (s : Demo) → (turn who s ≡ s) ⊎ (work (turn who s) < work s)
turn-moves generating s = elim (gen-moves s) [ inl (_, e) ↦ inl e | inr less ↦ inr less ]
turn-moves consuming s = elim (consumer-moves s) [ inl (_, e) ↦ inl e | inr less ↦ inr less ]

both-stuck : (s : Demo) → Exact s → ((who : Who) → turn who s ≡ s) → BothReturned s
both-stuck s (n, h) same =
    let p = ap work (same generating) in
    let c = ap work (same consuming) in
    elim (consumer-moves s) [
      | inr less ↦ absurd (omega arith)
      | inl (inl e, _) ↦ ((h.ended e).0, e)
      | inl (inr (nil, l, e), _) ↦ elim (gen-moves s) [
        | inr less ↦ absurd (omega arith)
        | inl (inl e', _) ↦ cc
        | inl (inr full, _) ↦ cc
      ]
    ]

-- More than 26 fair rounds lead to the return of both.
pub both_return :
    (schedule : List (List Who))
    → AllFair Everyone schedule
    → 2 * fib_count + 2 < length schedule
    → BothReturned (rounds turn schedule started)
both_return schedule fair enough =
    rounds_done turn Everyone Exact BothReturned
      (record {
        work = work;
        keep = turn-Exact;
        moves = λ who s h. turn-moves who s;
        stuck = both-stuck;
        absent = λ who s h. inl tt;
      })
      schedule started fair enough started-Exact

-- With more than 26 rounds in which the generator and the consumer have a turn, in any order, both
-- return, and the consumer has printed the first 12 Fibonacci numbers in order and their sum,
-- which is 232.
pub generator_completes :
    (schedule : List (List Who))
    → AllFair Everyone schedule
    → 2 * fib_count + 2 < length schedule
    → let s = rounds turn schedule started in BothReturned s × AllPrinted s
generator_completes schedule fair enough =
    rounds_end turn BothReturned AllPrinted schedule started
      (λ order over. prints_fibonacci order over.1) (both_return schedule fair enough)
