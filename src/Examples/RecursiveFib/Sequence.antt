-- ===== src/Examples/RecursiveFib/Sequence.antt =====
-- The sequence that examples/recursive_fib.c and examples/generator.c compute, and which of its
-- numbers a `long` holds.
use c_coroutine.Examples.RecursiveFib.{add_long}
use c_coroutine.Base.{
  ℕ, zero, suc, ◌+◌, ◌^◌, ◌≤◌, ◌<◌, ◌≡◌, refl, sym, ap, ◌∙◌, List, [], ◌∷◌, ◌++◌, arith, ℕ-cases,
  inl, inr, lt→ltb, le→ltb, some, none,
}

unfoldable pub fib : ℕ → ℕ
fib zero = 0
fib (suc zero) = 1
fib (suc (suc n)) = fib (suc n) + fib n

-- The first `n` of them.
abbrev pub fibs : ℕ → List ℕ
fibs zero = []
fibs (suc n) = fibs n ++ (fib n ∷ [])

pub fib_next : (n : ℕ) → fib (suc (suc n)) ≡ fib (suc n) + fib n
unfolding fib
fib_next n = refl

-- The number `n` places after two that follow one another, by `n` additions.
abbrev after : ℕ → ℕ → ℕ → ℕ
after zero a b = a
after (suc n) a b = after n b (a + b)

after-fib : (n k : ℕ) → after n (fib k) (fib (suc k)) ≡ fib (n + k)
after-fib zero k = let e : 0 + k ≡ k = omega arith in ap fib (sym e)
after-fib (suc n) k =
    let next : fib k + fib (suc k) ≡ fib (suc (suc k)) = omega (arith, fib_next k) in
    let e : n + suc k ≡ suc n + k = omega arith in
    ap (after n (fib (suc k))) next ∙ after-fib n (suc k) ∙ ap fib e

fib-after : (n : ℕ) → fib n ≡ after n 0 1
unfolding fib
fib-after n = let e : n + 0 ≡ n = omega arith in ap fib (sym e) ∙ sym (after-fib n 0)

fib_step : (n : ℕ) → fib n ≤ fib (suc n)
unfolding fib
fib_step zero = omega arith
fib_step (suc n) = omega arith

fib_le : (n m : ℕ) → n ≤ m → fib n ≤ fib m
fib_le n zero h = let e : n ≡ 0 = omega arith in rw e (omega arith)
fib_le n (suc m) h = elim (ℕ-cases n (suc m)) [
  | inl e ↦ rw e (omega arith)
  | inr ne ↦ omega (arith, fib_le n m (omega arith), fib_step m)
]

-- 92 is the last one that a `long` holds.
pub fib_fits : (n : ℕ) → n ≤ 92 → fib n < 2 ^ 63
fib_fits n h = omega (arith, fib_le n 92 h, fib-after 92)

pub fib_over : (n : ℕ) → 92 < n → 2 ^ 63 ≤ fib n
fib_over n h = omega (arith, fib_le 93 n (omega arith), fib-after 93)

-- The sum of two that follow one another, where it fits and where it does not.
pub add_long-fits :
    (n a b : ℕ) → a + b ≡ fib (suc n) + fib n → n ≤ 90 → add_long a b ≡ some (fib (suc (suc n)))
unfolding add_long
add_long-fits n a b e h =
    rw (e, ← fib_next n, lt→ltb (fib (suc (suc n))) (2 ^ 63) (fib_fits (suc (suc n)) (omega arith)))
      refl

pub add_long-over : (n a b : ℕ) → a + b ≡ fib (suc n) + fib n → 90 < n → add_long a b ≡ none
unfolding add_long
add_long-over n a b e h =
    rw (le→ltb (a + b) (2 ^ 63) (omega (arith, fib_next n, fib_over (suc (suc n)) (omega arith))))
      refl
