-- ===== src/Examples/Generator/Printed.antt =====
-- What the consumer of examples/generator.c prints, in every order of the turns.
use c_coroutine.Base.{
  ℕ, suc, ◌+◌, ◌≤◌, ◌≡◌, refl, sym, ap, ◌∙◌, List, [], ◌∷◌, ◌++◌, Option, none, some, true, false,
  arith, ltb, ltb→lt, Bool-cases, Option-cases, inl, inr, weigh, weigh-append, append-nil, subst,
  if◌then◌else◌,
}
use c_coroutine.Examples.Turns.{turns, turns_keep}
use c_coroutine.Examples.RecursiveFib.Sequence.{fib, fibs, fib_next}
use c_coroutine.Examples.Generator.{
  fib_count, made, taken, Chan, GenLocals, Demo, fib_gen, consume, gen_done, fib_consumer, Who,
  generating, consuming, turn, started,
}

-- The numbers printed, and the one that is ready.
abbrev pub pending : Chan → List ℕ
pending ch = elim ch.ready [ true ↦ ch.value ∷ [] | false ↦ [] ]

-- A generator that has made `n` numbers.
abbrev pub Makes : Option GenLocals → ℕ → Type 0
Makes none n = n ≡ fib_count
Makes (some l) n = (l.i ≡ n) × (l.a ≡ fib n) × (l.b ≡ fib (suc n)) × (n ≤ fib_count)

-- The sum of what is printed.
abbrev pub sum_printed : Demo → ℕ
sum_printed s = weigh (λ v. v) s.printed

pub record IsExact (s : Demo) (n : ℕ) : Type 0 where
  pub makes : Makes s.gen n
  pub order : s.printed ++ pending s.ch ≡ fibs n
  pub sums : (k : ℕ) → s.sum ≡ some k → k ≡ sum_printed s
  pub ended :
      s.sum ≡ none → (s.gen ≡ none) × (s.ch.ready ≡ false) × (s.printed_sum ≡ some (sum_printed s))

abbrev pub Exact : Demo → Type 0
Exact s = (n : ℕ) × IsExact s n

append_pending : (s : Demo) → s.ch.ready ≡ false → s.printed ++ pending s.ch ≡ s.printed
append_pending s e = rw e (append-nil s.printed)

-- The branches of a turn.
pub fib_gen-waits :
    (l : GenLocals) (s : Demo) → ltb l.i fib_count ≡ true → s.ch.ready ≡ true → fib_gen l s ≡ s
unfolding fib_gen
fib_gen-waits l s more full = rw (more, fib_gen) (ap (λ b. if b then s else made l s) full)

pub fib_gen-makes :
    (l : GenLocals) (s : Demo)
    → ltb l.i fib_count ≡ true
    → s.ch.ready ≡ false
    → fib_gen l s ≡ made l s
unfolding fib_gen
fib_gen-makes l s more room = rw (more, fib_gen) (ap (λ b. if b then s else made l s) room)

pub consume-takes : (sum : ℕ) (s : Demo) → s.ch.ready ≡ true → consume sum s ≡ taken sum s
unfolding consume
consume-takes sum s full = ap (λ b. if b then taken sum s else s) full

pub consume-nothing : (sum : ℕ) (s : Demo) → s.ch.ready ≡ false → consume sum s ≡ s
unfolding consume
consume-nothing sum s nil = ap (λ b. if b then taken sum s else s) nil

pending_full :
    (s : Demo) → s.ch.ready ≡ true → s.printed ++ pending s.ch ≡ s.printed ++ (s.ch.value ∷ [])
pending_full s e = rw e refl

some_inj : {a b : ℕ} → some a ≡ some b → a ≡ b
some_inj {a} e = ap (λ o. elim o [ none ↦ a | some x ↦ x ]) e

fib_gen-Exact : (l : GenLocals) (s : Demo) → s.gen ≡ some l → Exact s → Exact (fib_gen l s)
unfolding fib_gen
fib_gen-Exact l s e (n, h) =
    let m : (l.i ≡ n) × (l.a ≡ fib n) × (l.b ≡ fib (suc n)) × (n ≤ fib_count) =
      subst (λ g. Makes g n) e h.makes in
    elim (Bool-cases (ltb l.i fib_count)) [
      | inr stop ↦
          rw (stop, fib_gen)
            (
              n,
              record {
                makes = ground (arith, stop, m);
                order = h.order;
                sums = h.sums;
                ended = λ z. (refl, (h.ended z).1, (h.ended z).2);
              },
            )
      | inl more ↦ elim (Bool-cases s.ch.ready) [
        | inl full ↦ rw (fib_gen-waits l s more full) (n, h)
        | inr room ↦ rw (fib_gen-makes l s more room) (
          suc n,
          record {
            makes = (
              omega (arith, m.0),
              m.2,
              omega (arith, m.1, m.2, fib_next n),
              omega (arith, m.0, ltb→lt l.i fib_count more),
            );
            order =
                ap (λ v. s.printed ++ (v ∷ [])) m.1
                ∙ ap (λ vs. vs ++ (fib n ∷ [])) (sym (append_pending s room) ∙ h.order);
            sums = h.sums;
            ended = λ z. cc (e, (h.ended z).0);
          },
        )
      ]
    ]

-- A consumer that has taken what was ready.
consume-IsExact :
    (sum : ℕ) (s : Demo) (n : ℕ)
    → s.sum ≡ some sum
    → IsExact s n
    → let s' = consume sum s in
      IsExact s' n × (s'.ch.ready ≡ false) × (s'.sum ≡ some (sum_printed s'))
unfolding consume
consume-IsExact sum s n e h = elim (Bool-cases s.ch.ready) [
  | inr nil ↦ rw (consume-nothing sum s nil) (h, nil, e ∙ ap (λ k. some k) (h.sums sum e))
  | inl full ↦
      let total : sum + s.ch.value ≡ weigh (λ v. v) (s.printed ++ (s.ch.value ∷ [])) =
        omega (arith, h.sums sum e, weigh-append (λ v. v) s.printed (s.ch.value ∷ [])) in
      rw (consume-takes sum s full) (
        record {
          makes = h.makes;
          order = append-nil (s.printed ++ (s.ch.value ∷ [])) ∙ sym (pending_full s full) ∙ h.order;
          sums = λ k e'. omega (arith, total, some_inj e');
          ended = λ z. cc z;
        },
        refl,
        ap (λ k. some k) total,
      )
]

fib_consumer-Exact : (sum : ℕ) (s : Demo) → s.sum ≡ some sum → Exact s → Exact (fib_consumer sum s)
unfolding fib_consumer
fib_consumer-Exact sum s e (n, h) =
    let (h', nil, total) = consume-IsExact sum s n e h in
    elim (Option-cases (consume sum s).gen) [
      | inl g ↦
          let test : gen_done (consume sum s) ≡ true = rw g refl in
          rw (fib_consumer, test)
            (
              n,
              record {
                makes = h'.makes;
                order = h'.order;
                sums = λ k e'. cc e';
                ended = λ z. (g, nil, total);
              },
            )
      | inr (l, g) ↦
          let test : gen_done (consume sum s) ≡ false = rw g refl in rw (fib_consumer, test) (n, h')
    ]

-- The turn of a coroutine that has returned, and of one that has not.
pub turn-generating_none : (s : Demo) → s.gen ≡ none → turn generating s ≡ s
unfolding turn
turn-generating_none s e = ap (λ o. elim o [ none ↦ s | some l ↦ fib_gen l s ]) e

pub turn-generating : (s : Demo) {l : GenLocals} → s.gen ≡ some l → turn generating s ≡ fib_gen l s
unfolding turn
turn-generating s e = ap (λ o. elim o [ none ↦ s | some l ↦ fib_gen l s ]) e

pub turn-consuming_none : (s : Demo) → s.sum ≡ none → turn consuming s ≡ s
unfolding turn
turn-consuming_none s e = ap (λ o. elim o [ none ↦ s | some k ↦ fib_consumer k s ]) e

pub turn-consuming : (s : Demo) {k : ℕ} → s.sum ≡ some k → turn consuming s ≡ fib_consumer k s
unfolding turn
turn-consuming s e = ap (λ o. elim o [ none ↦ s | some k ↦ fib_consumer k s ]) e

pub turn-Exact : (who : Who) (s : Demo) → Exact s → Exact (turn who s)
turn-Exact generating s h = elim (Option-cases s.gen) [
  | inl e ↦ rw (turn-generating_none s e) h
  | inr (l, e) ↦ rw (turn-generating s e) (fib_gen-Exact l s e h)
]
turn-Exact consuming s h = elim (Option-cases s.sum) [
  | inl e ↦ rw (turn-consuming_none s e) h
  | inr (k, e) ↦ rw (turn-consuming s e) (fib_consumer-Exact k s e h)
]

pub started-Exact : Exact started
unfolding fib
started-Exact = (
  0,
  record {
    makes = (refl, refl, refl, omega arith);
    order = refl;
    sums = λ k e. some_inj (sym e);
    ended = λ z. cc z;
  },
)

-- The first numbers, and their sum.
abbrev pub AllPrinted : Demo → Type 0
AllPrinted s = (s.printed ≡ fibs fib_count) × (s.printed_sum ≡ some 232)

-- Once the consumer has returned, it has printed the first numbers and their sum.
pub prints_fibonacci :
    (schedule : List Who) → let s = turns turn schedule started in s.sum ≡ none → AllPrinted s
unfolding fib
prints_fibonacci schedule over =
    let s = turns turn schedule started in
    let (n, h) = turns_keep turn Exact turn-Exact schedule started started-Exact in
    let (g, nil, total) = h.ended over in
    let all : n ≡ fib_count = subst (λ o. Makes o n) g h.makes in
    let printed : s.printed ≡ fibs fib_count = sym (append_pending s nil) ∙ h.order ∙ ap fibs all in
    (printed, total ∙ ap (λ vs. some (weigh (λ v. v) vs)) printed)
