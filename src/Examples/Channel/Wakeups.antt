-- ===== src/Examples/Channel/Wakeups.antt =====
-- Every turn of examples/channel.c, and what holds whatever the order of the turns.
use c_coroutine.Base.{
  ℕ, zero, suc, ◌+◌, ◌≡◌, refl, sym, ap, ◌∙◌, subst, List, [], ◌∷◌, ◌++◌, append_assoc, append-nil,
  Option, none, some, arith, Bool, true, false, length, upto, ◌==◌, if◌then◌else◌, Bool-cases, inl,
  inr, ◌⊎◌,
}
use c_coroutine.Ring.{remove, length-Holds, remove-Holds, empty-Holds}
use c_coroutine.Examples.Turns.{turns, turns_keep}
use c_coroutine.Examples.Channel.{
  chan_cap, n_items, Who, producer, consumer, chan_init, chan_recv, Demo, consumer_run,
  producer_turn, consumer_turn, turn, started,
}
use c_coroutine.Examples.Channel.Delivery.{sent_by, is_done, Delivering, producer_run-Delivering}

-- One reception, or the end of the consumer's turn.
consumer_run-Delivering :
    (fuel : ℕ) (s : Demo) → s.receiving ≡ true → Delivering s → Delivering (consumer_run fuel s)
unfolding consumer_run chan_recv
consumer_run-Delivering zero s e (held, h) = (held, h)
consumer_run-Delivering (suc fuel) s e ([], h) =
    let n : 0 ≡ s.chan.ring.size = length-Holds chan_cap 0 h.holds in
    let test : (s.chan.ring.size == 0) ≡ true = ground arith in
    elim (Bool-cases s.chan.closed) [
      | inl closed ↦
          rw (test, closed, chan_recv, consumer_run)
            (
              [],
              record {
                holds = h.holds;
                order = h.order;
                bound = h.bound;
                closing = h.closing;
                sender_waits = h.sender_waits;
                receiver_waits = h.receiver_waits;
                over = inr (refl, closed);
                running = h.running;
              },
            )
      | inr still ↦
          rw (test, still, chan_recv, consumer_run)
            (
              [],
              record {
                holds = h.holds;
                order = h.order;
                bound = h.bound;
                closing = sym still ∙ h.closing;
                sender_waits = h.sender_waits;
                receiver_waits = inr (refl, refl);
                over = inl e;
                running = h.running;
              },
            )
    ]
consumer_run-Delivering (suc fuel) s e (x ∷ held, h) =
    let n : suc (length held) ≡ s.chan.ring.size = length-Holds chan_cap 0 h.holds in
    let test : (s.chan.ring.size == 0) ≡ false = ground arith in
    let (front, h') = remove-Holds chan_cap 0 h.holds in
    rw (test, front, chan_recv, consumer_run)
      (consumer_run-Delivering fuel
        (record s {
          chan = record s.chan { ring = remove chan_cap s.chan.ring; sender = none };
          got = s.got ++ (x ∷ []);
        })
        e
        (
          held,
          record {
            holds = h';
            order = append_assoc s.got (x ∷ []) held ∙ h.order;
            bound = h.bound;
            closing = h.closing;
            sender_waits = inl refl;
            receiver_waits = elim h.receiver_waits [
              | inl nobody ↦ inl nobody
              | inr (empty, _) ↦ absurd (omega arith)
            ];
            over = inl e;
            running = h.running;
          },
        ))

producer_turn-Delivering :
    (o : Option ℕ) (s : Demo) → s.left ≡ o → Delivering s → Delivering (producer_turn o s)
producer_turn-Delivering none s e h = h
producer_turn-Delivering (some left) s e h = producer_run-Delivering left s e h

consumer_turn-Delivering :
    (b : Bool) (s : Demo) → s.receiving ≡ b → Delivering s → Delivering (consumer_turn b s)
consumer_turn-Delivering false s e h = h
consumer_turn-Delivering true s e h = consumer_run-Delivering (s.chan.ring.size + 1) s e h

turn-Delivering : (who : Who) (s : Demo) → Delivering s → Delivering (turn who s)
unfolding turn
turn-Delivering producer s (held, h) =
    subst Delivering (sym (ap (λ b. if b then s else producer_turn s.left s) h.running))
      (producer_turn-Delivering s.left s refl (held, h))
turn-Delivering consumer s (held, h) =
    subst Delivering (sym (ap (λ b. if b then s else consumer_turn s.receiving s) h.running))
      (consumer_turn-Delivering s.receiving s refl (held, h))

started-Delivering : Delivering started
unfolding started chan_init
started-Delivering = (
  [],
  record {
    holds = empty-Holds chan_cap 0 (omega arith);
    order = refl;
    bound = omega arith;
    closing = refl;
    sender_waits = inl refl;
    receiver_waits = inl refl;
    over = inl refl;
    running = refl;
  },
)

done-sent : (o : Option ℕ) → is_done o ≡ true → sent_by o ≡ n_items
done-sent none e = refl
done-sent (some left) e = ground (arith, e)

no_entries : (held : List ℕ) → length held ≡ 0 → held ≡ []
no_entries [] e = refl
no_entries (x ∷ held) e = absurd (omega arith)

delivering : (schedule : List Who) → Delivering (turns turn schedule started)
delivering schedule = turns_keep turn Delivering turn-Delivering schedule started started-Delivering

-- After any sequence of turns, if the consumer has returned, it has received the numbers from 0 to
-- 15, each once and in order.
pub all_received :
    (schedule : List Who)
    → (turns turn schedule started).receiving ≡ false
    → (turns turn schedule started).got ≡ upto n_items
all_received schedule stopped =
    let s = turns turn schedule started in
    let (held, h) = delivering schedule in
    elim h.over [
      | inl going ↦ ground (arith, going, stopped)
      | inr (empty, closed) ↦
          sym (append-nil s.got)
          ∙ ap (λ xs. s.got ++ xs) (sym (no_entries held empty))
          ∙ h.order
          ∙ ap upto (done-sent s.left (sym h.closing ∙ closed))
    ]

-- After any sequence of turns, a sender is parked only in a full channel, a receiver only in an
-- empty one that is not closed, and the program has not aborted on a send to a closed channel.
pub no_lost_wakeup :
    (schedule : List Who)
    → let s = turns turn schedule started in
      ((s.chan.sender ≡ none) ⊎ (s.chan.ring.size ≡ chan_cap))
      × ((s.chan.receiver ≡ none) ⊎ (s.chan.ring.size ≡ 0) × (s.chan.closed ≡ false))
      × (s.has_aborted ≡ false)
no_lost_wakeup schedule =
    let (held, h) = delivering schedule in
    let n = length-Holds chan_cap 0 h.holds in
    (
      elim h.sender_waits [ inl nobody ↦ inl nobody | inr full ↦ inr (omega arith) ],
      elim h.receiver_waits [
        | inl nobody ↦ inl nobody
        | inr (empty, still) ↦ inr (omega arith, still)
      ],
      h.running,
    )
