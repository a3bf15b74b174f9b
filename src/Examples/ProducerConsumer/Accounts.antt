-- ===== src/Examples/ProducerConsumer/Accounts.antt =====
-- Accounts of what the producers of examples/producer_consumer.c make and its consumers get.
use c_coroutine.Base.{
  ℕ, zero, suc, ◌+◌, ◌-◌, ◌≤◌, ◌<◌, ◌≡◌, refl, ap, ◌∙◌, List, [], ◌∷◌, ◌++◌, Option, none, some,
  arith, length, weigh, weigh-append,
}
use c_coroutine.Ring.{Holds, empty-Holds}
use c_coroutine.Examples.Crowd.{Crowd, total}
use c_coroutine.Examples.ProducerConsumer.{
  buf_size, n_items, Shared, Role, producing, consuming, pairs, started,
}

-- The numbers that a producer makes from `val` on.
abbrev pub items : ℕ → ℕ → List ℕ
items val zero = []
items val (suc n) = val ∷ items (val + 1) n

-- Those that the producers of `starts` make.
abbrev pub products : List ℕ → List ℕ
products [] = []
products (start ∷ starts) = items start n_items ++ products starts

-- The weight of what a producer has yet to make.
abbrev pub owed : (ℕ → ℕ) → Option Role → ℕ
owed f none = 0
owed f (some (producing start i)) = weigh f (items (start + i) (n_items - i))
owed f (some (consuming total received)) = 0

-- How many values a consumer has yet to get.
abbrev pub due : Option Role → ℕ
due none = 0
due (some (producing start i)) = 0
due (some (consuming total received)) = total - received

pub owed-next :
    (f : ℕ → ℕ) (start i : ℕ)
    → i < n_items
    → owed f (some (producing start i)) ≡ f (start + i) + owed f (some (producing start (i + 1)))
owed-next f start i more =
    let n : n_items - i ≡ suc (n_items - (i + 1)) = omega arith in
    let next : start + i + 1 ≡ start + (i + 1) = omega arith in
    ap (λ k. weigh f (items (start + i) k)) n
    ∙ ap (λ v. f (start + i) + weigh f (items v (n_items - (i + 1)))) next

pub owed-end : (f : ℕ → ℕ) (start i : ℕ) → n_items ≤ i → owed f (some (producing start i)) ≡ 0
owed-end f start i end =
    let n : n_items - i ≡ 0 = omega arith in ap (λ k. weigh f (items (start + i) k)) n

pub owed-pairs :
    (f : ℕ → ℕ) (starts : List ℕ) → total (owed f) (pairs starts) ≡ weigh f (products starts)
owed-pairs f [] = refl
owed-pairs f (start ∷ starts) =
    let first : start + 0 ≡ start = omega arith in
    omega (
      arith,
      ap (λ v. weigh f (items v n_items)) first,
      weigh-append f (items start n_items) (products starts),
      owed-pairs f starts,
    )

pub due-pairs : (starts : List ℕ) → total due (pairs starts) ≡ weigh (λ _. 1) (products starts)
due-pairs [] = refl
due-pairs (start ∷ starts) =
    omega (arith, weigh-append (λ _. 1) (items start n_items) (products starts), due-pairs starts)

pub weigh-nil : (f : ℕ → ℕ) (xs : List ℕ) → length xs ≡ 0 → weigh f xs ≡ 0
weigh-nil f [] e = refl
weigh-nil f (x ∷ xs) e = absurd (omega arith)

pub record IsKept (starts : List ℕ) (c : Crowd Role Shared) (held : List ℕ) : Type 0 where
  pub holds : Holds buf_size 0 c.shared.buf held
  pub weights :
      (f : ℕ → ℕ)
      → weigh f c.shared.popped + weigh f held + total (owed f) c.locals ≡ weigh f (products starts)
  pub dues : length c.shared.popped + total due c.locals ≡ total due (pairs starts)

abbrev pub Kept : List ℕ → Crowd Role Shared → Type 0
Kept starts c = (held : List ℕ) × IsKept starts c held

pub started-Kept : (starts : List ℕ) → Kept starts (started starts)
unfolding started
started-Kept starts = (
  [],
  record {
    holds = empty-Holds buf_size 0 (omega arith);
    weights = λ f. omega (arith, owed-pairs f starts);
    dues = omega arith;
  },
)
