-- ===== src/Examples/ProducerConsumer/Kept.antt =====
-- The accounts of examples/producer_consumer.c are kept by every turn.
use c_coroutine.Base.{
  ℕ, ◌+◌, ◌<◌, ◌≡◌, refl, sym, ap, ◌∙◌, List, [], ◌∷◌, ◌++◌, Option, none, some, arith, length,
  get_or, ◌==◌, ltb, Bool-cases, true, false, List-cases, ltb→lt, subst, ℕ-cases, inl, inr, set,
  weigh, weigh-append, weigh-one, length-append,
}
use c_coroutine.Ring.{Holds, insert-Holds, remove-Holds, length-Holds}
use c_coroutine.Examples.Crowd.{
  Crowd, crowd_turn, resume, turn-cases, total-set, total-nowhere, AllReturned,
}
use c_coroutine.Examples.Turns.{turns, turns_keep}
use c_coroutine.Examples.ProducerConsumer.{
  buf_size, n_items, Shared, buf_full, buf_empty, buf_push, buf_pop, Role, producing, consuming,
  producer, consumer, role, started,
}
use c_coroutine.Examples.ProducerConsumer.Accounts.{
  products, owed, due, owed-next, owed-end, due-pairs, weigh-nil, Kept, started-Kept,
}

-- A coroutine that keeps its accounts and leaves the shared memory alone.
keeps-still :
    (starts : List ℕ) (i : ℕ) (c : Crowd Role Shared) {l : Role} (v : Option Role)
    → get_or c.locals i none ≡ some l
    → ((f : ℕ → ℕ) → owed f v ≡ owed f (some l))
    → due v ≡ due (some l)
    → Kept starts c
    → Kept starts (record c { locals = set c.locals i v })
keeps-still starts i c v here same_owed same_due (held, h) = (
  held,
  record {
    holds = h.holds;
    weights = λ f. omega (arith, total-set (owed f) c.locals i v here, same_owed f, h.weights f);
    dues = omega (arith, total-set due c.locals i v here, same_due, h.dues);
  },
)

producer-Kept :
    (starts : List ℕ) (k : ℕ) (c : Crowd Role Shared) (start i : ℕ)
    → get_or c.locals k none ≡ some (producing start i)
    → Kept starts c
    → Kept starts (resume role k (some (producing start i)) c)
unfolding role producer buf_full buf_push
producer-Kept starts k c start i here (held, h) = elim (Bool-cases (ltb i n_items)) [
  | inr stop ↦
      rw (stop, producer, role)
        (keeps-still starts k c none here (λ f. sym (owed-end f start i (ground (arith, stop))))
          refl (held, h))
  | inl more ↦ elim (ℕ-cases c.shared.buf.size buf_size) [
    | inl full ↦
        let test : (c.shared.buf.size == buf_size) ≡ true = ground arith in
        rw (more, test, producer, role)
          (keeps-still starts k c (some (producing start i)) here (λ f. refl) refl (held, h))
    | inr room ↦
        let v = some (producing start (i + 1)) in
        let fits : length held < buf_size =
          ground (arith, length-Holds buf_size 0 h.holds, h.holds.size_in) in
        let test : (c.shared.buf.size == buf_size) ≡ false = ground arith in
        rw (more, test, producer, role)
          (
            held ++ ((start + i) ∷ []),
            record {
              holds = insert-Holds buf_size 0 (start + i) h.holds fits;
              weights = λ f. omega (
                arith,
                total-set (owed f) c.locals k v here,
                owed-next f start i (ground (arith, more)),
                weigh-append f held ((start + i) ∷ []),
                h.weights f,
              );
              dues = omega (arith, total-set due c.locals k v here, h.dues);
            },
          )
  ]
]

consumer-Kept :
    (starts : List ℕ) (k : ℕ) (c : Crowd Role Shared) (needed received : ℕ)
    → get_or c.locals k none ≡ some (consuming needed received)
    → Kept starts c
    → Kept starts (resume role k (some (consuming needed received)) c)
unfolding role consumer buf_empty buf_pop
consumer-Kept starts k c needed received here (held, h) = elim (Bool-cases (ltb received needed)) [
  | inr stop ↦
      rw (stop, consumer, role)
        (keeps-still starts k c none here (λ f. refl) (ground (arith, stop)) (held, h))
  | inl more ↦ elim (List-cases held) [
    | inl nil ↦
        let test : (c.shared.buf.size == 0) ≡ true =
          ground (arith, sym (length-Holds buf_size 0 h.holds) ∙ ap length nil) in
        rw (more, test, consumer, role)
          (keeps-still starts k c (some (consuming needed received)) here (λ f. refl) refl
            (held, h))
    | inr (x, xs, e) ↦
        let v = some (consuming needed (received + 1)) in
        let test : (c.shared.buf.size == 0) ≡ false =
          ground (arith, sym (length-Holds buf_size 0 h.holds) ∙ ap length e) in
        let (front, h') =
          remove-Holds buf_size 0 (subst (Holds buf_size 0 c.shared.buf) e h.holds) in
        rw (more, test, consumer, role)
          (
            xs,
            record {
              holds = h';
              weights = λ f. omega (
                arith,
                total-set (owed f) c.locals k v here,
                weigh-append f c.shared.popped (get_or c.shared.buf.slots c.shared.buf.head 0 ∷ []),
                ap f front,
                ap (weigh f) e,
                h.weights f,
              );
              dues = omega (
                arith,
                total-set due c.locals k v here,
                length-append c.shared.popped (get_or c.shared.buf.slots c.shared.buf.head 0 ∷ []),
                ltb→lt received needed more,
                h.dues,
              );
            },
          )
  ]
]

pub turn-Kept :
    (starts : List ℕ) (k : ℕ) (c : Crowd Role Shared)
    → Kept starts c
    → Kept starts (crowd_turn role k c)
turn-Kept starts k c h = elim (turn-cases role k c) [
  | inl (_, same) ↦ rw same h
  | inr (producing start i, here, e) ↦ rw e (producer-Kept starts k c start i here h)
  | inr (consuming needed received, here, e) ↦
      rw e (consumer-Kept starts k c needed received here h)
]

-- When all have returned, what the consumers have printed is what the producers have made.
pub received_all :
    (starts : List ℕ) (schedule : List ℕ) (f : ℕ → ℕ)
    → let c = turns (crowd_turn role) schedule (started starts) in
      AllReturned c → weigh f c.shared.popped ≡ weigh f (products starts)
received_all starts schedule f all =
    let c = turns (crowd_turn role) schedule (started starts) in
    let (held, h) =
      turns_keep (crowd_turn role) (Kept starts) (turn-Kept starts) schedule (started starts)
        (started-Kept starts) in
    let made = total-nowhere (owed f) c.locals (λ i. ap (owed f) (all i)) in
    let nothing_made = total-nowhere (owed (λ _. 1)) c.locals (λ i. ap (owed (λ _. 1)) (all i)) in
    let got = total-nowhere due c.locals (λ i. ap due (all i)) in
    let nil : length held ≡ 0 = omega (
      arith,
      h.weights (λ _. 1),
      weigh-one c.shared.popped,
      weigh-one held,
      h.dues,
      due-pairs starts,
    ) in
    omega (arith, h.weights f, weigh-nil f held nil)
