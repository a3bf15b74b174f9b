-- ===== src/Examples/RingBuffer/Progress.antt =====
-- The coroutines of examples/ring_buffer_demo.c cannot block one another.
use c_coroutine.Base.{
  upto, ℕ, ◌*◌, ◌+◌, ◌-◌, ◌≤◌, ◌<◌, ◌≡◌, refl, sym, ap, ◌∙◌, List, [], Option, none, some, arith,
  length, lt→ltb, ◌⊎◌, inl, inr, ℕ-cases, length-append, length-upto,
}
use c_coroutine.Ring.{insert-cases, remove-cases}
use c_coroutine.Examples.Turns.{rounds_end, rounds, AllFair, Everyone, rounds_done}
use c_coroutine.Examples.RingBuffer.{
  buffer_capacity, item_count, rb_push, rb_pop, Demo, producer, consumer, Who, producing, consuming,
  turn, started,
}
use c_coroutine.Examples.RingBuffer.Order.{
  all_delivered, reached, IsOrdered, Ordered, turn-IsOrdered, started-IsOrdered,
}

-- The turns that are left to a coroutine.
abbrev left : Option ℕ → ℕ
left none = 0
left (some n) = item_count + 1 - n

abbrev work : Demo → ℕ
work s = left s.i + left s.received

-- A coroutine that waits finds the buffer full, or empty.
producer-moves :
    (o : Option ℕ) {s : Demo} {held : List ℕ}
    → s.i ≡ o
    → IsOrdered s held
    → ((o ≡ none) ⊎ (length held ≡ buffer_capacity)) × (producer o s ≡ s)
      ⊎ (work (producer o s) < work s)
unfolding producer rb_push
producer-moves none {s} e h = inl (inl refl, refl)
producer-moves (some n) {s} {held} e h =
    let b : n ≤ item_count = rw (← ap reached e) h.bound in
    elim (ℕ-cases n item_count) [
      | inl stop ↦ inr (rw (stop, producer, e) (omega arith))
      | inr more ↦ elim (insert-cases buffer_capacity 0 n h.holds) [
        | inl (e', full) ↦ inl (inr full, rw (lt→ltb n item_count (omega arith), e', producer) refl)
        | inr (q, e', h') ↦
            inr (rw (lt→ltb n item_count (omega arith), e', producer, e) (omega arith))
      ]
    ]

consumer-moves :
    (o : Option ℕ) {s : Demo} {held : List ℕ}
    → s.received ≡ o
    → IsOrdered s held
    → ((o ≡ none) ⊎ (length held ≡ 0) × (reached o < item_count)) × (consumer o s ≡ s)
      ⊎ (work (consumer o s) < work s)
unfolding consumer rb_pop
consumer-moves none {s} e h = inl (inl refl, refl)
consumer-moves (some n) {s} {held} e h =
    let p : length s.consumed ≡ n = h.printed ∙ ap reached e in
    let l : length s.consumed + length held ≡ reached s.i =
      sym (length-append s.consumed held) ∙ ap length h.order ∙ length-upto (reached s.i) in
    elim (ℕ-cases n item_count) [
      | inl stop ↦ inr (rw (stop, consumer, e) (omega arith))
      | inr more ↦
          let b : n < item_count = ground (arith, h.bound) in
          elim (remove-cases buffer_capacity 0 held h.holds) [
            | inl (e', nil) ↦
                inl (inr (ap length nil, b), rw (lt→ltb n item_count b, e', consumer) refl)
            | inr (x, xs, q, c, e', h') ↦
                inr (rw (lt→ltb n item_count b, e', consumer, e) (omega arith))
          ]
    ]

abbrev pub BothReturned : Demo → Type 0
BothReturned s = (s.i ≡ none) × (s.received ≡ none)

turn-moves : (who : Who) (s : Demo) → Ordered s → (turn who s ≡ s) ⊎ (work (turn who s) < work s)
unfolding turn
turn-moves producing s (held, h) = elim (producer-moves s.i refl h) [
  | inl (_, e) ↦ inl e
  | inr less ↦ inr less
]
turn-moves consuming s (held, h) = elim (consumer-moves s.received refl h) [
  | inl (_, e) ↦ inl e
  | inr less ↦ inr less
]

both-stuck : (s : Demo) → Ordered s → ((who : Who) → turn who s ≡ s) → BothReturned s
unfolding turn
both-stuck s (held, h) same =
    let p = ap work (same producing) in
    let c = ap work (same consuming) in
    let l : length s.consumed + length held ≡ reached s.i =
      sym (length-append s.consumed held) ∙ ap length h.order ∙ length-upto (reached s.i) in
    let n : length s.consumed ≡ reached s.received = h.printed in
    let b : reached s.i ≤ item_count = h.bound in
    elim (producer-moves s.i refl h) [
      | inr less ↦ absurd (omega arith)
      | inl (inl i, _) ↦ elim (consumer-moves s.received refl h) [
        | inr less ↦ absurd (omega arith)
        | inl (inl r, _) ↦ (i, r)
        | inl (inr (nil, unfinished), _) ↦ absurd (omega (arith, ap reached i))
      ]
      | inl (inr full, _) ↦ elim (consumer-moves s.received refl h) [
        | inr less ↦ absurd (omega arith)
        | inl (inl r, _) ↦ absurd (omega (arith, ap reached r))
        | inl (inr (nil, unfinished), _) ↦ absurd (omega arith)
      ]
    ]

-- With more than 42 rounds in which the producer and the consumer have a turn, in any order, both
-- return.
pub always_finishes :
    (schedule : List (List Who))
    → AllFair Everyone schedule
    → 2 * (item_count + 1) < length schedule
    → BothReturned (rounds turn schedule started)
always_finishes schedule fair enough =
    rounds_done turn Everyone Ordered BothReturned
      (record {
        work = work;
        keep = turn-IsOrdered;
        moves = turn-moves;
        stuck = both-stuck;
        absent = λ who s h. inl tt;
      })
      schedule started fair enough ([], started-IsOrdered)

-- With more than 42 rounds in which the producer and the consumer have a turn, in any order, both
-- return, and the consumer has printed the numbers from 0 to 19, each once and in order.
pub delivers_everything :
    (schedule : List (List Who))
    → AllFair Everyone schedule
    → 2 * (item_count + 1) < length schedule
    → let s = rounds turn schedule started in BothReturned s × (s.consumed ≡ upto item_count)
delivers_everything schedule fair enough =
    rounds_end turn BothReturned (λ s. s.consumed ≡ upto item_count) schedule started
      (λ order over. all_delivered order over.1) (always_finishes schedule fair enough)
