-- ===== src/Ring.antt =====
-- The circular buffer that the examples and tests of the repository share in shape: an array, the
-- index of the oldest entry, the index of the next free slot and the number of entries.
use c_coroutine.Base.{
  ℕ, zero, suc, ◌+◌, ◌-◌, ◌%◌, ◌≤◌, ◌<◌, ◌≡◌, refl, sym, ap, ap₂, ◌∙◌, List, [], ◌∷◌, ◌++◌, arith,
  length, get_or, set, length-set, get_or-set_self, get_or-set_ne, ltb, if◌then◌else◌, inl, inr,
  ℕ-cases, replicate, length-replicate, ◌==◌, Option, none, some, ◌⊎◌,
}
use native.Mathlib.Nat.{mod-eq_of_lt, mod_self}

pub record Ring {ℓ} (A : Type ℓ) : Type ℓ where
  pub slots : List A
  pub head : ℕ
  pub tail : ℕ
  pub size : ℕ

-- The place `k` after `h` in a buffer of `cap` places, for `h` and `k` up to `cap`.
abbrev pub place : ℕ → ℕ → ℕ → ℕ
place cap h k = if ltb (h + k) cap then h + k else h + k - cap

module _ {ℓ} {A : Type ℓ} where
  abbrev pub window : (cap : ℕ) → A → List A → ℕ → ℕ → List A
  window cap d buf h zero = []
  window cap d buf h (suc n) = get_or buf h d ∷ window cap d buf (place cap h 1) n

  -- The entries, oldest first; `d` is not reached in a buffer that is in order.
  abbrev pub contents : (cap : ℕ) → A → Ring A → List A
  contents cap d q = window cap d q.slots q.head q.size

  -- The entry `v` written at the tail.
  abbrev pub insert : (cap : ℕ) → A → Ring A → Ring A
  insert cap v q = record {
    slots = set q.slots q.tail v;
    head = q.head;
    tail = (q.tail + 1) % cap;
    size = q.size + 1;
  }

  -- The oldest entry left out.
  abbrev pub remove : (cap : ℕ) → Ring A → Ring A
  remove cap q = record q { head = (q.head + 1) % cap; size = q.size - 1 }

  -- A buffer filled with zeros.
  abbrev pub empty : (cap : ℕ) → A → Ring A
  empty cap d = record { slots = replicate cap d; head = 0; tail = 0; size = 0 }

-- Insertion and removal as the examples guard them.
module _ {ℓ} {A : Type ℓ} where
  abbrev pub try_insert : (cap : ℕ) → A → Ring A → Option (Ring A)
  try_insert cap v q = if q.size == cap then none else some (insert cap v q)

  abbrev pub try_remove : (cap : ℕ) → A → Ring A → Option (A × Ring A)
  try_remove cap d q = if q.size == 0 then none else some (get_or q.slots q.head d, remove cap q)

-- A buffer in order that holds `xs`, oldest first: the indices are in range, and the tail is
-- `size` places behind the head.
pub record Holds {ℓ} {A : Type ℓ} (cap : ℕ) (d : A) (q : Ring A) (xs : List A) : Type ℓ where
  pub storage : length q.slots ≡ cap
  pub head_in : q.head < cap
  pub size_in : q.size ≤ cap
  pub tail_at : q.tail ≡ place cap q.head q.size
  pub entries : contents cap d q ≡ xs

abbrev rest {ℓ} : {A : Type ℓ} → List A → List A
rest [] = []
rest (x ∷ xs) = xs

next_place : (cap i : ℕ) → i < cap → (i + 1) % cap ≡ place cap i 1
next_place cap i h = elim (ℕ-cases (i + 1) cap) [
  | inl e ↦ rw (e, mod_self cap) (ground arith)
  | inr ne ↦ mod-eq_of_lt (omega arith) ∙ ground arith
]

place_step : (cap h k : ℕ) → h < cap → k < cap → place cap (place cap h 1) k ≡ place cap h (k + 1)
place_step cap h k hh hk = ground arith

place_in : (cap h k : ℕ) → h < cap → k ≤ cap → place cap h k < cap
place_in cap h k hh hk = ground arith

module _ {ℓ} {A : Type ℓ} (cap : ℕ) (d : A) where
  length-window : (buf : List A) (h n : ℕ) → length (window cap d buf h n) ≡ n
  length-window buf h zero = refl
  length-window buf h (suc n) = ap suc (length-window buf (place cap h 1) n)

  -- Writing just past a window extends it by the entry.
  window-set :
      (buf : List A) (x : A) (n h i : ℕ)
      → length buf ≡ cap
      → h < cap
      → n < cap
      → i ≡ place cap h n
      → window cap d (set buf i x) h (suc n) ≡ window cap d buf h n ++ (x ∷ [])
  window-set buf x zero h i s hh hn e =
      let e' : i ≡ h = ground arith in
      rw (← e') (ap (λ (y : A). y ∷ []) (get_or-set_self buf i x d (ground arith)))
  window-set buf x (suc n) h i s hh hn e = ap₂ ◌∷◌ (get_or-set_ne buf i h x d (ground arith)) (
      window-set buf x n (place cap h 1) i s (place_in cap h 1 hh (omega arith)) (omega arith)
        (ground arith))

  pub length-Holds : {q : Ring A} {xs : List A} → Holds cap d q xs → length xs ≡ q.size
  length-Holds {q} r = sym (ap length r.entries) ∙ length-window q.slots q.head q.size

  pub insert-Holds :
      (v : A) {q : Ring A} {xs : List A}
      → Holds cap d q xs
      → length xs < cap
      → Holds cap d (insert cap v q) (xs ++ (v ∷ []))
  insert-Holds v {q} {xs} r room =
      let n : length xs ≡ q.size = length-Holds r in
      record {
        storage = length-set q.slots q.tail v ∙ r.storage;
        head_in = r.head_in;
        size_in = omega arith;
        tail_at =
            next_place cap q.tail (rw r.tail_at (place_in cap q.head q.size r.head_in r.size_in))
            ∙ ground (arith, r.tail_at, r.head_in);
        entries =
            let e : q.size + 1 ≡ suc q.size = omega arith in
            rw e (
              window-set q.slots v q.size q.head q.tail r.storage r.head_in (omega arith) r.tail_at)
            ∙ ap (λ ys. ys ++ (v ∷ [])) r.entries;
      }

  -- The entry at the head is the oldest, and is gone after a removal.
  pub remove-Holds :
      {q : Ring A} {x : A} {xs : List A}
      → Holds cap d q (x ∷ xs)
      → (get_or q.slots q.head d ≡ x) × Holds cap d (remove cap q) xs
  remove-Holds {q} {x} {xs} r =
      let n : suc (length xs) ≡ q.size = length-Holds r in
      let e : q.size ≡ suc (q.size - 1) = omega arith in
      let w : get_or q.slots q.head d ∷ window cap d q.slots (place cap q.head 1) (q.size - 1)
          ≡ x ∷ xs =
        ap (window cap d q.slots q.head) (sym e) ∙ r.entries in
      let h : (q.head + 1) % cap ≡ place cap q.head 1 = next_place cap q.head r.head_in in
      (
        ap (λ ys. get_or ys 0 d) w,
        record {
          storage = r.storage;
          head_in = rw h (place_in cap q.head 1 r.head_in (ground (arith, r.head_in)));
          size_in = ground (arith, r.size_in);
          tail_at = r.tail_at ∙ ground (arith, h, r.head_in, r.size_in);
          entries = ap (λ i. window cap d q.slots i (q.size - 1)) h ∙ ap rest w;
        },
      )

  pub empty-Holds : zero < cap → Holds cap d (empty cap d) []
  empty-Holds h = record {
    storage = length-replicate cap d;
    head_in = h;
    size_in = omega arith;
    tail_at = ground arith;
    entries = refl;
  }

  pub insert-cases :
      (v : A) {q : Ring A} {xs : List A}
      → Holds cap d q xs
      → (try_insert cap v q ≡ none) × (length xs ≡ cap)
        ⊎ (q' : Ring A) × (try_insert cap v q ≡ some q') × Holds cap d q' (xs ++ (v ∷ []))
  insert-cases v {q} {xs} r =
      let n : length xs ≡ q.size = length-Holds r in
      elim (ℕ-cases q.size cap) [
        | inl e ↦ inl (ground arith, omega arith)
        | inr ne ↦ inr (insert cap v q, ground arith, insert-Holds v r (ground (arith, r.size_in)))
      ]

  pub remove-cases :
      {q : Ring A} (xs : List A)
      → Holds cap d q xs
      → (try_remove cap d q ≡ none) × (xs ≡ [])
        ⊎ (x : A) × (ys : List A) × (q' : Ring A) × (xs ≡ x ∷ ys)
          × (try_remove cap d q ≡ some (x, q'))
          × Holds cap d q' ys
  remove-cases {q} [] r = let n : 0 ≡ q.size = length-Holds r in inl (ground arith, refl)
  remove-cases {q} (x ∷ xs) r =
      let n : suc (length xs) ≡ q.size = length-Holds r in
      let (e, r') = remove-Holds r in inr (x, xs, remove cap q, refl, rw e (ground arith), r')
