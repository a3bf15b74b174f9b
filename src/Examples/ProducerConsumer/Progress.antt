-- ===== src/Examples/ProducerConsumer/Progress.antt =====
-- The coroutines of examples/producer_consumer.c cannot block one another for good.
use c_coroutine.Base.{
  weigh, ℕ, ◌*◌, ◌+◌, ◌-◌, ◌<◌, ◌≡◌, refl, ap, ◌∙◌, List, [], ◌∷◌, Option, none, some, arith,
  length, get_or, ltb, ◌==◌, Bool-cases, ℕ-cases, ◌⊎◌, inl, inr, weigh-one, ltb→lt,
}
use c_coroutine.Ring.{length-Holds}
use c_coroutine.Examples.Crowd.{
  Crowd, crowd_turn, resume, turn-cases, total, total-set, total-nowhere, total-zero, AllReturned,
  set_same, length-turn, turn-absent,
}
use c_coroutine.Examples.Turns.{rounds_end, rounds, AllFair, rounds_done}
use c_coroutine.Examples.ProducerConsumer.{
  buf_size, n_items, Shared, buf_full, buf_empty, Role, producing, consuming, producer, consumer,
  role, pairs, started,
}
use c_coroutine.Examples.ProducerConsumer.Accounts.{
  products, owed, due, due-pairs, Kept, started-Kept,
}
use c_coroutine.Examples.ProducerConsumer.Kept.{received_all, turn-Kept}

-- The turns that a coroutine needs, those in which it waits not counted.
abbrev needs : Option Role → ℕ
needs none = 0
needs (some (producing start i)) = n_items - i + 1
needs (some (consuming needed received)) = needed - received + 1

abbrev work : Crowd Role Shared → ℕ
work c = total needs c.locals

-- What a coroutine that a turn does not change is waiting for.
data Blocked (size : ℕ) : Option Role → Type 0 where
  returned : Blocked size none
  no_room : (start i : ℕ) → size ≡ buf_size → Blocked size (some (producing start i))
  no_entry :
      (needed received : ℕ)
      → size ≡ 0
      → received < needed
      → Blocked size (some (consuming needed received))

producer-moves :
    (k : ℕ) (c : Crowd Role Shared) (start i : ℕ)
    → get_or c.locals k none ≡ some (producing start i)
    → let c' = resume role k (some (producing start i)) c in
      Blocked c.shared.buf.size (some (producing start i)) × (c' ≡ c) ⊎ (work c' < work c)
unfolding role producer buf_full
producer-moves k c start i here = elim (Bool-cases (ltb i n_items)) [
  | inr stop ↦ inr (rw (stop, producer, role) (omega (arith, total-set needs c.locals k none here)))
  | inl more ↦ elim (Bool-cases (c.shared.buf.size == buf_size)) [
    | inl full ↦ inl (
      no_room start i (ground (arith, full)),
      rw (more, full, producer, role)
          (ap (λ os. record c { locals = os }) (set_same c.locals k here)),
    )
    | inr room ↦
        let less = ltb→lt i n_items more in
        inr (
          rw (more, room, producer, role)
            (omega (arith, total-set needs c.locals k (some (producing start (i + 1))) here)))
  ]
]

consumer-moves :
    (k : ℕ) (c : Crowd Role Shared) (needed received : ℕ)
    → get_or c.locals k none ≡ some (consuming needed received)
    → let c' = resume role k (some (consuming needed received)) c in
      Blocked c.shared.buf.size (some (consuming needed received)) × (c' ≡ c) ⊎ (work c' < work c)
unfolding role consumer buf_empty
consumer-moves k c needed received here = elim (Bool-cases (ltb received needed)) [
  | inr stop ↦ inr (rw (stop, consumer, role) (omega (arith, total-set needs c.locals k none here)))
  | inl more ↦
      let less = ltb→lt received needed more in
      elim (Bool-cases (c.shared.buf.size == 0)) [
        | inl nil ↦ inl (
          no_entry needed received (ground (arith, nil)) less,
          rw (more, nil, consumer, role)
              (ap (λ os. record c { locals = os }) (set_same c.locals k here)),
        )
        | inr entry ↦ inr (
            rw (more, entry, consumer, role)
              (omega
                (arith, total-set needs c.locals k (some (consuming needed (received + 1))) here)))
      ]
]

moves :
    (k : ℕ) (c : Crowd Role Shared)
    → Blocked c.shared.buf.size (get_or c.locals k none) × (crowd_turn role k c ≡ c)
      ⊎ (work (crowd_turn role k c) < work c)
moves k c = elim (turn-cases role k c) [
  | inl (e, same) ↦ inl (rw e returned, same)
  | inr (producing start i, e, e') ↦ rw (e, e') (producer-moves k c start i e)
  | inr (consuming needed received, e, e') ↦ rw (e, e') (consumer-moves k c needed received e)
]

abbrev IsGoing : List ℕ → Crowd Role Shared → Type 0
IsGoing starts c = Kept starts c × (length c.locals ≡ length (pairs starts))

-- With entries in the buffer no consumer waits, and with room no producer does.
Blocked-due : {size : ℕ} {o : Option Role} → Blocked size o → 0 < size → due o ≡ 0
Blocked-due returned some_left = refl
Blocked-due (no_room start i full) some_left = refl
Blocked-due (no_entry needed received nil less) some_left = absurd (omega arith)

Blocked-owed : {size : ℕ} {o : Option Role} → Blocked size o → size ≡ 0 → owed (λ _. 1) o ≡ 0
Blocked-owed returned nil = refl
Blocked-owed (no_room start i full) nil = absurd (omega arith)
Blocked-owed (no_entry needed received e less) nil = refl

Blocked-none : {size : ℕ} {o : Option Role} → Blocked size o → size ≡ 0 → due o ≡ 0 → o ≡ none
Blocked-none returned nil d = refl
Blocked-none (no_room start i full) nil d = absurd (omega arith)
Blocked-none (no_entry needed received e less) nil d = absurd (omega arith)

all-stuck :
    (starts : List ℕ) (c : Crowd Role Shared)
    → IsGoing starts c
    → ((k : ℕ) → crowd_turn role k c ≡ c)
    → AllReturned c
all-stuck starts c ((held, h), _) same =
    let blocked : (j : ℕ) → Blocked c.shared.buf.size (get_or c.locals j none) = λ j.
      elim (moves j c) [ inl (b, _) ↦ b | inr less ↦ absurd (omega (arith, ap work (same j))) ] in
    let accounts : length c.shared.popped + length held + total (owed (λ _. 1)) c.locals
        ≡ length c.shared.popped + total due c.locals =
      omega (
        arith,
        h.weights (λ _. 1),
        h.dues,
        due-pairs starts,
        weigh-one c.shared.popped,
        weigh-one held,
      ) in
    let n : length held ≡ c.shared.buf.size = length-Holds buf_size 0 h.holds in
    elim (ℕ-cases c.shared.buf.size 0) [
      | inl nil ↦
          let none_owed =
            total-nowhere (owed (λ _. 1)) c.locals (λ j. Blocked-owed (blocked j) nil) in
          let none_due : total due c.locals ≡ 0 = omega arith in
          λ j. Blocked-none (blocked j) nil (total-zero due c.locals j none_due refl)
      | inr some_left ↦
          let none_due = total-nowhere due c.locals (λ j. Blocked-due (blocked j) (omega arith)) in
          absurd (omega arith)
    ]

needs-pairs : (starts : List ℕ) → total needs (pairs starts) ≡ 2 * (n_items + 1) * length starts
needs-pairs [] = refl
needs-pairs (start ∷ starts) = omega (arith, needs-pairs starts)

-- More than 34 fair rounds for each pair lead to the return of all.
pub all_return :
    (starts : List ℕ) (schedule : List (List ℕ))
    → AllFair (λ k. k < length (pairs starts)) schedule
    → 2 * (n_items + 1) * length starts < length schedule
    → AllReturned (rounds (crowd_turn role) schedule (started starts))
unfolding started
all_return starts schedule fair enough =
    rounds_done (crowd_turn role) (λ k. k < length (pairs starts)) (IsGoing starts) AllReturned
      (record {
        work = work;
        keep = λ k c (h, n). (turn-Kept starts k c h, length-turn role k c ∙ n);
        moves = λ k c h. elim (moves k c) [ inl (_, same) ↦ inl same | inr less ↦ inr less ];
        stuck = λ c h same. all-stuck starts c h same;
        absent = λ k c (_, n). turn-absent role k (length (pairs starts)) c n;
      })
      schedule (started starts) fair (omega (arith, needs-pairs starts)) (started-Kept starts, refl)

-- With more than 34 rounds for each pair of a producer and a consumer, in which every coroutine
-- has a turn, in any order, all return, and whatever weight numbers have, those that the consumers
-- have printed weigh as much as those that the producers are to make.
pub everything_consumed :
    (starts : List ℕ) (schedule : List (List ℕ)) (f : ℕ → ℕ)
    → AllFair (λ k. k < length (pairs starts)) schedule
    → 2 * (n_items + 1) * length starts < length schedule
    → let c = rounds (crowd_turn role) schedule (started starts) in
      AllReturned c × (weigh f c.shared.popped ≡ weigh f (products starts))
everything_consumed starts schedule f fair enough =
    rounds_end (crowd_turn role) AllReturned
      (λ c. weigh f c.shared.popped ≡ weigh f (products starts)) schedule (started starts)
      (λ order over. received_all starts order f over) (all_return starts schedule fair enough)
