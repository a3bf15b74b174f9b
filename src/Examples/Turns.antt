-- ===== src/Examples/Turns.antt =====
-- Coroutines that take turns, in any order: invariants, and what a fair order of turns achieves.
use c_coroutine.Base.{
  zero, suc, replicate, upto, ◌++◌, ℕ-cases, ℕ, ◌<◌, ◌≡◌, refl, sym, ap, ◌∙◌, subst, List, [], ◌∷◌,
  ◌⊎◌, inl, inr, length, arith,
}
use mathlib.Core.List.{Memᴰ}
use mathlib.Core.List.Memᴰ

module _ {W S : Type 0} (turn : W → S → S) where
  abbrev pub turns : List W → S → S
  turns [] s = s
  turns (w ∷ schedule) s = turns schedule (turn w s)

  -- A schedule in rounds.
  abbrev pub rounds : List (List W) → S → S
  rounds [] s = s
  rounds (round ∷ later) s = rounds later (turns round s)

  -- The rounds one after another.
  abbrev pub joined : List (List W) → List W
  joined [] = []
  joined (round ∷ later) = round ++ joined later

  pub turns-append :
      (early late : List W) (s : S) → turns (early ++ late) s ≡ turns late (turns early s)
  turns-append [] late s = refl
  turns-append (w ∷ early) late s = turns-append early late (turn w s)

  pub turns-joined : (later : List (List W)) (s : S) → turns (joined later) s ≡ rounds later s
  turns-joined [] s = refl
  turns-joined (round ∷ later) s =
      turns-append round (joined later) s ∙ turns-joined later (turns round s)

  -- What holds at the end of every sequence of turns that ends in some states holds at the end of
  -- rounds that end in one of them.
  pub rounds_end :
      (Done Holds : S → Type 0) (later : List (List W)) (s : S)
      → ((schedule : List W) → Done (turns schedule s) → Holds (turns schedule s))
      → Done (rounds later s)
      → Done (rounds later s) × Holds (rounds later s)
  rounds_end Done Holds later s ends done =
      let e = turns-joined later s in
      (done, subst Holds e (ends (joined later) (subst Done (sym e) done)))

  pub turns_keep :
      (I : S → Type 0)
      → ((w : W) (s : S) → I s → I (turn w s))
      → (schedule : List W) (s : S) → I s
      → I (turns schedule s)
  turns_keep I keep [] s h = h
  turns_keep I keep (w ∷ schedule) s h = turns_keep I keep schedule (turn w s) (keep w s h)

-- Every coroutine has a turn in the round; `Here` says which numbers or names are coroutines.
abbrev pub IsFair : {W : Type 0} → (W → Type 0) → List W → Type 0
IsFair {W} Here round = (w : W) → Here w → Memᴰ w round

abbrev pub AllFair : {W : Type 0} → (W → Type 0) → List (List W) → Type 0
AllFair Here [] = Unit {0}
AllFair Here (round ∷ later) = IsFair Here round × AllFair Here later

abbrev pub Everyone : {W : Type 0} → W → Type 0
Everyone w = Unit {0}

-- A turn of a state in `I` lowers its work or leaves it as it is, and a state that no turn changes
-- is one in `Done`.
pub record Progress {W S : Type 0} (turn : W → S → S) (Here : W → Type 0) (I Done : S → Type 0)
    : Type 0 where
  pub work : S → ℕ
  pub keep : (w : W) (s : S) → I s → I (turn w s)
  pub moves : (w : W) (s : S) → I s → (turn w s ≡ s) ⊎ (work (turn w s) < work s)
  pub stuck : (s : S) → I s → ((w : W) → turn w s ≡ s) → Done s
  pub absent : (w : W) (s : S) → I s → Here w ⊎ (turn w s ≡ s)

module _ {W S : Type 0} (turn : W → S → S) (Here : W → Type 0) (I Done : S → Type 0)
    (P : Progress turn Here I Done) where
  round-cases :
      (round : List W) (s : S)
      → I s
      → ((w : W) → Memᴰ w round → turn w s ≡ s) × (turns turn round s ≡ s)
        ⊎ (P.work (turns turn round s) < P.work s)
  round-cases [] s h = inl ((λ w m. elim m [ ]), refl)
  round-cases (v ∷ round) s h = elim (P.moves v s h) [
    | inl e ↦ elim (round-cases round s h) [
      | inl (same, e') ↦ inl (
        (λ w m. elim (Memᴰ.cases_cons m) [ inl f ↦ ap (λ u. turn u s) f ∙ e | inr m' ↦ same w m' ]),
        ap (turns turn round) e ∙ e',
      )
      | inr less ↦ inr (rw e less)
    ]
    | inr less ↦ elim (round-cases round (turn v s) (P.keep v s h)) [
      | inl (_, e') ↦ inr (rw e' less)
      | inr less' ↦ inr (omega arith)
    ]
  ]

  still : (s : S) → ((w : W) → turn w s ≡ s) → (schedule : List W) → turns turn schedule s ≡ s
  still s e [] = refl
  still s e (w ∷ schedule) = ap (turns turn schedule) (e w) ∙ still s e schedule

  rounds-still :
      (s : S) → ((w : W) → turn w s ≡ s) → (later : List (List W)) → rounds turn later s ≡ s
  rounds-still s e [] = refl
  rounds-still s e (round ∷ later) =
      ap (rounds turn later) (still s e round) ∙ rounds-still s e later

  -- More fair rounds than there is work lead to the end.
  pub rounds_done :
      (schedule : List (List W)) (s : S)
      → AllFair Here schedule
      → P.work s < length schedule
      → I s
      → Done (rounds turn schedule s)
  rounds_done [] s fair less h = absurd (omega arith)
  rounds_done (round ∷ later) s (fair, later_fair) less h = elim (round-cases round s h) [
    | inl (same, e) ↦
        let still_all : (w : W) → turn w s ≡ s =
          λ w. elim (P.absent w s h) [ inl here ↦ same w (fair w here) | inr e' ↦ e' ] in
        subst Done (sym (ap (rounds turn later) e ∙ rounds-still s still_all later))
          (P.stuck s h still_all)
    | inr lower ↦
        rounds_done later (turns turn round s) later_fair (omega arith)
          (turns_keep turn I P.keep round s h)
  ]

pub AllFair-replicate :
    {W : Type 0} {Here : W → Type 0} {round : List W} (n : ℕ)
    → IsFair Here round
    → AllFair Here (replicate n round)
AllFair-replicate zero fair = tt
AllFair-replicate (suc n) fair = (fair, AllFair-replicate n fair)

Memᴰ-before : {A : Type 0} {a : A} (xs ys : List A) → Memᴰ a xs → Memᴰ a (xs ++ ys)
Memᴰ-before [] ys m = elim m [ ]
Memᴰ-before (x ∷ xs) ys m = elim (Memᴰ.cases_cons m) [
  | inl e ↦ Memᴰ.head e
  | inr m' ↦ Memᴰ.tail (Memᴰ-before xs ys m')
]

Memᴰ-last : {A : Type 0} (a : A) (xs : List A) → Memᴰ a (xs ++ (a ∷ []))
Memᴰ-last a [] = Memᴰ.head refl
Memᴰ-last a (x ∷ xs) = Memᴰ.tail (Memᴰ-last a xs)

-- A round in the order of the numbers.
pub upto-IsFair : (n : ℕ) → IsFair (λ i. i < n) (upto n)
upto-IsFair zero i h = absurd (omega arith)
upto-IsFair (suc n) i h = elim (ℕ-cases i n) [
  | inl e ↦ rw e (Memᴰ-last n (upto n))
  | inr ne ↦ Memᴰ-before (upto n) (n ∷ []) (upto-IsFair n i (omega arith))
]
