-- ===== src/Examples/Semaphore/Logger/Text.antt =====
-- The texts that the loggers of examples/semaphore.c append to their log.
use c_coroutine.Base.{
  ℕ, zero, suc, ◌+◌, ◌-◌, ◌≤◌, ◌<◌, ◌≡◌, refl, sym, ap, ◌∙◌, List, [], ◌∷◌, ◌++◌, append_assoc,
  append-nil, arith, length, length-append, take, weigh,
}
use c_coroutine.Examples.Semaphore.Logger.{log_size, append}

-- The texts of loggers, one after another.
abbrev pub texts : (ℕ → List ℕ) → List ℕ → List ℕ
texts text_of [] = []
texts text_of (i ∷ is) = text_of i ++ texts text_of is

pub length-texts :
    (text_of : ℕ → List ℕ) (is : List ℕ)
    → length (texts text_of is) ≡ weigh (λ i. length (text_of i)) is
length-texts text_of [] = refl
length-texts text_of (i ∷ is) =
    omega (arith, length-append (text_of i) (texts text_of is), length-texts text_of is)

pub texts-append :
    (text_of : ℕ → List ℕ) (is : List ℕ) (j : ℕ)
    → texts text_of (is ++ (j ∷ [])) ≡ texts text_of is ++ text_of j
texts-append text_of [] j = append-nil (text_of j)
texts-append text_of (i ∷ is) j =
    ap (λ t. text_of i ++ t) (texts-append text_of is j)
    ∙ sym (append_assoc (text_of i) (texts text_of is) (text_of j))

take-enough : (k : ℕ) (xs : List ℕ) → length xs ≤ k → take k xs ≡ xs
take-enough zero [] h = refl
take-enough zero (x ∷ xs) h = absurd (omega arith)
take-enough (suc k) [] h = refl
take-enough (suc k) (x ∷ xs) h = ap (λ ys. x ∷ ys) (take-enough k xs (omega arith))

take-bound : (k : ℕ) (xs : List ℕ) → length (take k xs) ≤ k
take-bound zero xs = omega arith
take-bound (suc k) [] = omega arith
take-bound (suc k) (x ∷ xs) = omega (arith, take-bound k xs)

pub append-bound :
    (log entry : List ℕ) → length log < log_size → length (append log entry) < log_size
unfolding append
append-bound log entry h = omega (
  arith,
  length-append log (take (log_size - length log - 1) entry),
  take-bound (log_size - length log - 1) entry,
)

pub append-fits :
    (log entry : List ℕ) → length log + length entry < log_size → append log entry ≡ log ++ entry
unfolding append
append-fits log entry h =
    ap (λ t. log ++ t) (take-enough (log_size - length log - 1) entry (omega arith))
