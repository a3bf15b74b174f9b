-- ===== src/Examples/RecursiveFib.antt =====
-- examples/recursive_fib.c: Fibonacci numbers from a generator, and from a tree of coroutines.
-- co_resume is not in include/coroutine.h; as the program uses it, it runs a coroutine to its next
-- `co_yield` or its end and returns to its caller, and does nothing to one that has returned.
-- Coroutines are created; the numbers are not negative, and a sum that a `long` does not hold ends
-- what is defined.
pub mod Sequence
pub mod Generator
pub mod Tree
use c_coroutine.Base.{
  ℕ, zero, suc, ◌+◌, ◌-◌, ◌^◌, List, [], ◌∷◌, ◌++◌, Option, none, some, Bool, true, false, ◌&&◌,
  ltb, if◌then◌else◌,
}

-- The sum of two values of type `long`; `none` if it overflows.
unfoldable pub add_long : ℕ → ℕ → Option ℕ
add_long a b = if ltb (a + b) (2 ^ 63) then some (a + b) else none

pub record FibGenState : Type 0 where
  pub limit : ℕ
  pub out : ℕ
  pub done : Bool

-- Where the generator is: before its first statement, at the yield in the loop with `i`, `a` and
-- `b`, at the yield after it, at its end, or past an overflow.
pub data GenFrame : Type 0 where
  fresh : GenFrame
  yielded : (i a b : ℕ) → GenFrame
  finished returned overflowed : GenFrame

-- From the test of the loop to the next yield.
unfoldable pub fib_gen_from : ℕ → ℕ → ℕ → FibGenState → GenFrame × FibGenState
fib_gen_from i a b s =
    if ltb i s.limit
    then (yielded i a b, record s { out = a })
    else (finished, record s { done = true })

-- One `co_resume` of the generator.
unfoldable pub fib_gen : GenFrame → FibGenState → GenFrame × FibGenState
fib_gen fresh s = fib_gen_from 0 0 1 s
fib_gen (yielded i a b) s = elim (add_long a b) [
  | none ↦ (overflowed, s)
  | some tmp ↦ fib_gen_from (i + 1) b tmp s
]
fib_gen finished s = (returned, s)
fib_gen returned s = (returned, s)
fib_gen overflowed s = (overflowed, s)

-- The loop of `run_generator`, and what it has printed; `none` without enough fuel.
unfoldable pub drive : ℕ → GenFrame → FibGenState → List ℕ → Option (List ℕ)
drive zero gen s printed = none
drive (suc fuel) gen s printed = elim s.done [
  | true ↦ some printed
  | false ↦
      let r = fib_gen gen s in
      drive fuel r.0 r.1 (if r.1.done then printed else printed ++ (r.1.out ∷ []))
]

unfoldable pub run_generator : (fuel limit : ℕ) → Option (List ℕ)
run_generator fuel limit = drive fuel fresh (record { limit = limit; out = 0; done = false }) []

pub record Future : Type 0 where
  pub value : ℕ
  pub ready : Bool

abbrev pub unready : Future
unready = record { value = 0; ready = false }

-- A coroutine of the tree: created for `n`, at the yield of its loop with the futures and the
-- coroutines of its two children, at its end, or past an overflow.
pub data Fiber : Type 0 where
  created : (n : ℕ) → Fiber
  looping : (f1 f2 : Future) → (c1 c2 : Fiber) → Fiber
  ended stopped : Fiber

-- A resumption of a child, unless its future is ready.
abbrev pub resume_child : (Fiber → Future → Fiber × Future) → Fiber → Future → Fiber × Future
resume_child co_resume c f = elim f.ready [ true ↦ (c, f) | false ↦ co_resume c f ]

-- What follows the loop.
unfoldable pub fulfil : Future → Future → Future → Fiber × Future
fulfil f1 f2 result = elim (add_long f1.value f2.value) [
  | none ↦ (stopped, result)
  | some value ↦ (ended, record { value = value; ready = true })
]

-- The body of the loop, with the test after it.
unfoldable pub run_children :
    (Fiber → Future → Fiber × Future) → (f1 f2 : Future) → (c1 c2 : Fiber) → Future → Fiber × Future
run_children co_resume f1 f2 c1 c2 result =
    let r1 = resume_child co_resume c1 f1 in
    let r2 = resume_child co_resume c2 f2 in
    if r1.1.ready && r2.1.ready
    then fulfil r1.1 r2.1 result
    else (looping r1.1 r2.1 r1.0 r2.0, result)

-- One `co_resume` of a coroutine that is to write `result`, with the calls of `co_resume` that it
-- makes in turn nested up to `depth` deep.
unfoldable pub fib_coro : (depth : ℕ) → Fiber → Future → Fiber × Future
fib_coro zero c result = (c, result)
fib_coro (suc depth) (created n) result =
    if ltb 1 n
    then run_children (fib_coro depth) unready unready (created (n - 1)) (created (n - 2)) result
    else (ended, record { value = n; ready = true })
fib_coro (suc depth) (looping f1 f2 c1 c2) result = run_children (fib_coro depth) f1 f2 c1 c2 result
fib_coro (suc depth) ended result = (ended, result)
fib_coro (suc depth) stopped result = (stopped, result)

-- The loop of `run_recursive`; `none` without enough fuel.
unfoldable pub drive_root : (fuel depth : ℕ) → Fiber → Future → Option ℕ
drive_root zero depth root result = none
drive_root (suc fuel) depth root result = elim result.ready [
  | true ↦ some result.value
  | false ↦ let r = fib_coro depth root result in drive_root fuel depth r.0 r.1
]

unfoldable pub run_recursive : (fuel depth n : ℕ) → Option ℕ
run_recursive fuel depth n = drive_root fuel depth (created n) unready
