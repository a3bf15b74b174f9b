-- ===== src/Base/Members.antt =====
-- Boolean membership in a list of numbers, lists without repetition, and the pigeonhole principle.
use Prim.Native.Nat.{ℕ, ◌+◌, ◌≤◌}
use mathlib.Core.Path.{◌≡◌, refl}
use mathlib.Core.Logic.{◌≢◌, inl, inr}
use mathlib.Core.Bool.{Bool, true, false, ◌||◌, ◌&&◌}
use mathlib.Core.List.{List, [], ◌∷◌, ◌++◌}
use native.Mathlib.Omega.{arith}
use c_coroutine.Base.Tests.{◌==◌, if◌then◌else◌, ℕ-cases, Bool-cases}
use c_coroutine.Base.Lists.{length}

abbrev pub has : ℕ → List ℕ → Bool
has a [] = false
has a (x ∷ xs) = (a == x) || has a xs

abbrev pub Distinct : List ℕ → Type 0
Distinct [] = Unit
Distinct (x ∷ xs) = (has x xs ≡ false) × Distinct xs

-- The entries for which a test holds, in order.
abbrev pub keep : (ℕ → Bool) → List ℕ → List ℕ
keep p [] = []
keep p (x ∷ xs) = let rest = keep p xs in if p x then x ∷ rest else rest

-- The list less every occurrence of `a`.
abbrev pub without : ℕ → List ℕ → List ℕ
without a [] = []
without a (x ∷ xs) = let rest = without a xs in if a == x then rest else x ∷ rest

pub has-append : (a : ℕ) (xs ys : List ℕ) → has a (xs ++ ys) ≡ (has a xs || has a ys)
has-append a [] ys = refl
has-append a (x ∷ xs) ys = ground (arith, has-append a xs ys)

pub has-keep : (p : ℕ → Bool) (a : ℕ) (xs : List ℕ) → has a (keep p xs) ≡ (p a && has a xs)
has-keep p a [] = ground arith
has-keep p a (x ∷ xs) = elim (ℕ-cases a x) [
  | inl e ↦ rw e (ground (arith, has-keep p x xs))
  | inr ne ↦ ground (arith, has-keep p a xs)
]

-- Two tests that agree on a list keep the same entries of it.
pub keep_congr :
    (p q : ℕ → Bool) (xs : List ℕ) → ((a : ℕ) → has a xs ≡ true → p a ≡ q a) → keep p xs ≡ keep q xs
keep_congr p q [] h = refl
keep_congr p q (x ∷ xs) h = ground (arith, h x, keep_congr p q xs (λ a m. h a (ground (arith, m))))

pub keep-append : (p : ℕ → Bool) (xs ys : List ℕ) → keep p (xs ++ ys) ≡ keep p xs ++ keep p ys
keep-append p [] ys = refl
keep-append p (x ∷ xs) ys = ground (arith, keep-append p xs ys)

pub has-without : (a b : ℕ) (xs : List ℕ) → b ≢ a → has b (without a xs) ≡ has b xs
has-without a b [] ne = refl
has-without a b (x ∷ xs) ne = ground (arith, has-without a b xs ne)

length-without_le : (a : ℕ) (xs : List ℕ) → length (without a xs) ≤ length xs
length-without_le a [] = omega arith
length-without_le a (x ∷ xs) = ground (arith, length-without_le a xs)

pub length-without : (a : ℕ) (xs : List ℕ) → has a xs ≡ true → length (without a xs) + 1 ≤ length xs
length-without a [] h = cc
length-without a (x ∷ xs) h = ground (arith, length-without a xs, length-without_le a xs)

pub Distinct-append_one :
    (xs : List ℕ) (a : ℕ) → Distinct xs → has a xs ≡ false → Distinct (xs ++ (a ∷ []))
Distinct-append_one [] a d h = (refl, tt)
Distinct-append_one (x ∷ xs) a d h =
    (ground (arith, has-append x xs (a ∷ [])), Distinct-append_one xs a d.1 (ground arith))

pub Distinct-append :
    (xs ys : List ℕ)
    → Distinct xs
    → Distinct ys
    → ((a : ℕ) → has a xs ≡ true → has a ys ≡ false)
    → Distinct (xs ++ ys)
Distinct-append [] ys d e apart = e
Distinct-append (x ∷ xs) ys d e apart = (
  ground (arith, has-append x xs ys, apart x),
  Distinct-append xs ys d.1 e (λ a m. apart a (ground (arith, m))),
)

pub Distinct-keep : (p : ℕ → Bool) (xs : List ℕ) → Distinct xs → Distinct (keep p xs)
Distinct-keep p [] d = tt
Distinct-keep p (x ∷ xs) d = elim (Bool-cases (p x)) [
  | inl e ↦ rw e (ground (arith, has-keep p x xs), Distinct-keep p xs d.1)
  | inr e ↦ rw e (Distinct-keep p xs d.1)
]

-- A list without repetition whose entries all occur in another is no longer than it.
pub pigeonhole :
    (xs ys : List ℕ)
    → Distinct xs
    → ((a : ℕ) → has a xs ≡ true → has a ys ≡ true)
    → length xs ≤ length ys
pigeonhole [] ys d sub = omega arith
pigeonhole (x ∷ xs) ys d sub = ground (
  arith,
  length-without x ys (sub x (ground arith)),
  pigeonhole xs (without x ys) d.1
      (λ a h. rw (has-without x a ys (other a h)) (sub a (ground (arith, h)))),
)
  where
    other : (a : ℕ) → has a xs ≡ true → a ≢ x
    other a h e = ground (arith, h, d.0)
