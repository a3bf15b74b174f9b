-- ===== src/Examples/RingBuffer/Order.antt =====
-- What the consumer of examples/ring_buffer_demo.c prints, in every order of the turns.
use c_coroutine.Base.{
  ℕ, suc, ◌+◌, ◌≤◌, ◌≡◌, refl, sym, ap, ◌∙◌, List, [], ◌∷◌, ◌++◌, append_assoc, Option, none, some,
  arith, length, length-append, upto, ℕ-cases, inl, inr, lt→ltb, length-upto, prefix-upto,
}
use c_coroutine.Ring.{Holds, insert-cases, remove-cases, empty-Holds}
use c_coroutine.Examples.Turns.{turns, turns_keep}
use c_coroutine.Examples.RingBuffer.{
  buffer_capacity, item_count, rb_push, rb_pop, Demo, producer, consumer, Who, producing, consuming,
  turn, started,
}

-- The count that a coroutine has reached; all items when it has returned.
abbrev pub reached : Option ℕ → ℕ
reached none = item_count
reached (some n) = n

pub record IsOrdered (s : Demo) (held : List ℕ) : Type 0 where
  pub holds : Holds buffer_capacity 0 s.rb held
  pub order : s.consumed ++ held ≡ upto (reached s.i)
  pub printed : length s.consumed ≡ reached s.received
  pub bound : reached s.i ≤ item_count

producer-IsOrdered :
    (o : Option ℕ) {s : Demo} {held : List ℕ}
    → s.i ≡ o
    → IsOrdered s held
    → (held' : List ℕ) × IsOrdered (producer o s) held'
unfolding producer rb_push
producer-IsOrdered none {s} {held} e h = (held, h)
producer-IsOrdered (some n) {s} {held} e h =
    let b : n ≤ item_count = rw (← ap reached e) h.bound in
    let o : s.consumed ++ held ≡ upto n = h.order ∙ ap (λ x. upto (reached x)) e in
    elim (ℕ-cases n item_count) [
      | inl stop ↦
          rw (stop, producer)
            (
              held,
              record {
                holds = h.holds;
                order = o ∙ ap upto stop;
                printed = h.printed;
                bound = omega arith;
              },
            )
      | inr more ↦ elim (insert-cases buffer_capacity 0 n h.holds) [
        | inl (full, _) ↦ rw (lt→ltb n item_count (omega arith), full, producer) (held, h)
        | inr (q, e', h') ↦
            rw (lt→ltb n item_count (omega arith), e', producer)
              (
                held ++ (n ∷ []),
                record {
                  holds = h';
                  order =
                      sym (append_assoc s.consumed held (n ∷ []))
                      ∙ ap (λ ys. ys ++ (n ∷ [])) o
                      ∙ (let next : suc n ≡ n + 1 = omega arith in ap upto next);
                  printed = h.printed;
                  bound = omega arith;
                },
              )
      ]
    ]

consumer-IsOrdered :
    (o : Option ℕ) {s : Demo} {held : List ℕ}
    → s.received ≡ o
    → IsOrdered s held
    → (held' : List ℕ) × IsOrdered (consumer o s) held'
unfolding consumer rb_pop
consumer-IsOrdered none {s} {held} e h = (held, h)
consumer-IsOrdered (some n) {s} {held} e h =
    let p : length s.consumed ≡ n = h.printed ∙ ap reached e in
    let l : length s.consumed + length held ≡ reached s.i =
      sym (length-append s.consumed held) ∙ ap length h.order ∙ length-upto (reached s.i) in
    elim (ℕ-cases n item_count) [
      | inl stop ↦
          rw (stop, consumer)
            (held, record { holds = h.holds; order = h.order; printed = p ∙ stop; bound = h.bound })
      | inr more ↦ elim (remove-cases buffer_capacity 0 held h.holds) [
        | inl (none_left, _) ↦
            rw (lt→ltb n item_count (ground (arith, h.bound)), none_left, consumer) (held, h)
        | inr (x, xs, q, c, e', h') ↦
            rw (lt→ltb n item_count (ground (arith, h.bound)), e', consumer)
              (
                xs,
                record {
                  holds = h';
                  order =
                      append_assoc s.consumed (x ∷ []) xs
                      ∙ ap (λ ys. s.consumed ++ ys) (sym c)
                      ∙ h.order;
                  printed = length-append s.consumed (x ∷ []) ∙ ap (λ m. m + 1) p;
                  bound = h.bound;
                },
              )
      ]
    ]

abbrev pub Ordered : Demo → Type 0
Ordered s = (held : List ℕ) × IsOrdered s held

pub turn-IsOrdered : (who : Who) (s : Demo) → Ordered s → Ordered (turn who s)
unfolding turn
turn-IsOrdered producing s (held, h) = producer-IsOrdered s.i refl h
turn-IsOrdered consuming s (held, h) = consumer-IsOrdered s.received refl h

pub started-IsOrdered : IsOrdered started []
started-IsOrdered = record {
  holds = empty-Holds buffer_capacity 0 (omega arith);
  order = refl;
  printed = refl;
  bound = omega arith;
}

-- What has been printed is always a beginning of what is to be.
pub consumed_in_order :
    (schedule : List Who)
    → let s = turns turn schedule started in s.consumed ≡ upto (length s.consumed)
consumed_in_order schedule =
    let (held, h) =
      turns_keep turn Ordered turn-IsOrdered schedule started ([], started-IsOrdered) in
    prefix-upto (turns turn schedule started).consumed held
      (reached (turns turn schedule started).i) h.order

-- After any sequence of turns, if the consumer has returned, it has printed the numbers from 0 to
-- 19, each once and in order.
pub all_delivered :
    (schedule : List Who)
    → (turns turn schedule started).received ≡ none
    → (turns turn schedule started).consumed ≡ upto item_count
all_delivered schedule e =
    let (held, h) =
      turns_keep turn Ordered turn-IsOrdered schedule started ([], started-IsOrdered) in
    consumed_in_order schedule ∙ ap upto (h.printed ∙ ap reached e)
