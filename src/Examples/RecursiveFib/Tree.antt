-- ===== src/Examples/RecursiveFib/Tree.antt =====
-- The tree of coroutines of examples/recursive_fib.c computes the Fibonacci numbers.
use c_coroutine.Base.{ℕ, zero, suc, ◌-◌, ◌≤◌, ◌<◌, ◌≡◌, refl, true, arith, lt→ltb}
use c_coroutine.Examples.RecursiveFib.{
  Future, unready, Fiber, created, ended, fulfil, run_children, fib_coro,
}
use c_coroutine.Examples.RecursiveFib.Sequence.{fib, add_long-fits}

-- A future that a coroutine for `n` has fulfilled.
abbrev pub answer : ℕ → Future
answer n = record { value = fib n; ready = true }

-- Two children that end at once, for the two numbers before.
children-end :
    (co_resume : Fiber → Future → Fiber × Future) (n : ℕ) (result : Future)
    → n ≤ 90
    → co_resume (created (suc n)) unready ≡ (ended, answer (suc n))
    → co_resume (created n) unready ≡ (ended, answer n)
    → run_children co_resume unready unready (created (suc n)) (created n) result
      ≡ (ended, answer (suc (suc n)))
unfolding run_children fulfil
children-end co_resume n result fits e1 e2 =
    rw (run_children, e1, e2, fulfil, add_long-fits n (fib (suc n)) (fib n) refl fits) refl

-- Its first resumption ends a coroutine, and all below it: none of them yields.
pub fib_coro_lem :
    (depth n : ℕ) (result : Future)
    → n < depth
    → n ≤ 92
    → fib_coro depth (created n) result ≡ (ended, answer n)
unfolding fib_coro fib
fib_coro_lem zero n result deep fits = absurd (omega arith)
fib_coro_lem (suc depth) zero result deep fits = refl
fib_coro_lem (suc depth) (suc zero) result deep fits = refl
fib_coro_lem (suc depth) (suc (suc n)) result deep fits =
    let e1 : suc (suc n) - 1 ≡ suc n = omega arith in
    let e2 : suc (suc n) - 2 ≡ n = omega arith in
    rw (fib_coro, lt→ltb 1 (suc (suc n)) (omega arith), e1, e2)
      (children-end (fib_coro depth) n result (omega arith)
        (fib_coro_lem depth (suc n) unready (omega arith) (omega arith))
        (fib_coro_lem depth n unready (omega arith) (omega arith)))
