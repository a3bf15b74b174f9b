-- ===== src/Examples/Crowd.antt =====
-- Any number of coroutines with the same body on shared memory. A body runs from one call of
-- `co_yield` to the next: it maps what the coroutine keeps on its stack and the shared memory to
-- the same at its next yield, or to `none` at its end.
use c_coroutine.Base.{
  ℕ, zero, suc, ◌+◌, ◌*◌, ◌≤◌, ◌<◌, ◌≡◌, refl, sym, ap, List, [], ◌∷◌, Option, none, some, ◌⊎◌, inl,
  inr, arith, length, get_or, set, length-set, replicate, Option-cases, Bool-cases, ltb,
}

pub record Crowd (L U : Type 0) : Type 0 where
  pub locals : List (Option L)
  pub shared : U

abbrev pub Body : Type 0 → Type 0 → Type 0
Body L U = L → U → Option L × U

module _ {L U : Type 0} where
  abbrev pub resume : Body L U → ℕ → Option L → Crowd L U → Crowd L U
  resume body i none c = c
  resume body i (some l) c =
      let r = body l c.shared in record { locals = set c.locals i r.0; shared = r.1 }

  -- The turn of the coroutine with number `i`; nothing happens if it has returned.
  unfoldable pub crowd_turn : Body L U → ℕ → Crowd L U → Crowd L U
  crowd_turn body i c = resume body i (get_or c.locals i none) c

  -- A turn does nothing, or it is that of a coroutine that has not returned.
  pub turn-cases :
      (body : Body L U) (i : ℕ) (c : Crowd L U)
      → (get_or c.locals i none ≡ none) × (crowd_turn body i c ≡ c)
        ⊎ (l : L) × (get_or c.locals i none ≡ some l)
          × (crowd_turn body i c ≡ resume body i (some l) c)
  unfolding crowd_turn
  turn-cases body i c = elim (Option-cases (get_or c.locals i none)) [
    | inl e ↦ inl (e, rw e refl)
    | inr (l, e) ↦ inr (l, e, rw e refl)
  ]

module _ {A : Type 0} (f : Option A → ℕ) where
  abbrev pub total : List (Option A) → ℕ
  total [] = 0
  total (o ∷ os) = f o + total os

  -- The total after one entry is written.
  pub total-set :
      (os : List (Option A)) (i : ℕ) (v : Option A) {a : A}
      → get_or os i none ≡ some a
      → total (set os i v) + f (some a) ≡ total os + f v
  total-set [] i v e = ground arith
  total-set (o ∷ os) zero v e = rw (← e) (omega arith)
  total-set (o ∷ os) (suc i) v e = omega (arith, total-set os i v e)

  pub total-replicate : (n : ℕ) (o : Option A) → total (replicate n o) ≡ n * f o
  total-replicate zero o = omega arith
  total-replicate (suc n) o = omega (arith, total-replicate n o)

  pub total-nowhere : (os : List (Option A)) → ((i : ℕ) → f (get_or os i none) ≡ 0) → total os ≡ 0
  total-nowhere [] h = refl
  total-nowhere (o ∷ os) h = omega (arith, h 0, total-nowhere os (λ i. h (suc i)))

  pub total-zero :
      (os : List (Option A)) (i : ℕ) → total os ≡ 0 → f none ≡ 0 → f (get_or os i none) ≡ 0
  total-zero [] i h n = n
  total-zero (o ∷ os) zero h n = omega arith
  total-zero (o ∷ os) (suc i) h n = total-zero os i (omega arith) n

-- All coroutines have returned.
abbrev pub AllReturned : {L U : Type 0} → Crowd L U → Type 0
AllReturned {L} {U} c = (i : ℕ) → get_or c.locals i none ≡ none

module _ {A : Type 0} where
  pub set_same :
      (os : List (Option A)) (i : ℕ) {o : Option A} → get_or os i none ≡ o → set os i o ≡ os
  set_same [] i e = refl
  set_same (x ∷ os) zero e = ap (λ y. y ∷ os) (sym e)
  set_same (x ∷ os) (suc i) e = ap (λ ys. x ∷ ys) (set_same os i e)

  pub get_or-outside : (os : List (Option A)) (i : ℕ) → length os ≤ i → get_or os i none ≡ none
  get_or-outside [] i h = refl
  get_or-outside (o ∷ os) zero h = absurd (omega arith)
  get_or-outside (o ∷ os) (suc i) h = get_or-outside os i (omega arith)

  pub get_or-inside :
      (os : List (Option A)) (i : ℕ) {a : A} → get_or os i none ≡ some a → i < length os
  get_or-inside [] i e = cc e
  get_or-inside (o ∷ os) zero e = omega arith
  get_or-inside (o ∷ os) (suc i) e = omega (arith, get_or-inside os i e)

pub length-turn :
    {L U : Type 0} (body : Body L U) (i : ℕ) (c : Crowd L U)
    → length (crowd_turn body i c).locals ≡ length c.locals
length-turn body i c = elim (turn-cases body i c) [
  | inl (_, e) ↦ rw e refl
  | inr (l, _, e) ↦ rw e (length-set c.locals i (body l c.shared).0)
]

-- A number that no coroutine has takes no turn.
pub turn-absent :
    {L U : Type 0} (body : Body L U) (i n : ℕ) (c : Crowd L U)
    → length c.locals ≡ n
    → (i < n) ⊎ (crowd_turn body i c ≡ c)
turn-absent body i n c e = elim (turn-cases body i c) [
  | inl (_, same) ↦ inr same
  | inr (l, here, _) ↦ elim (Bool-cases (ltb i n)) [
    | inl inside ↦ inl (ground (arith, inside))
    | inr outside ↦
        let out = get_or-outside c.locals i (ground (arith, outside)) in ground (arith, here, out)
  ]
]
