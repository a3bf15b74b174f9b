-- ===== src/Examples/Channel/Delivery.antt =====
-- The channel of examples/channel.c delivers what is sent, and loses no wake-up.
use c_coroutine.Base.{
  ℕ, zero, suc, ◌-◌, ◌≤◌, ◌≡◌, ◌≢◌, refl, sym, ap, ◌∙◌, subst, List, [], ◌∷◌, ◌++◌, append_assoc,
  Option, none, some, arith, Bool, true, false, length, upto, ◌==◌, ℕ-cases, inl, inr, ◌⊎◌,
}
use c_coroutine.Ring.{insert, Holds, length-Holds, insert-Holds}
use c_coroutine.Examples.Channel.{chan_cap, n_items, Who, chan_send, chan_close, Demo, producer_run}

-- How many items have been sent.
abbrev pub sent_by : Option ℕ → ℕ
sent_by none = n_items
sent_by (some left) = n_items - left

-- One for a parked coroutine, and for a closed channel.
abbrev pub parked_one : Option Who → ℕ
parked_one none = 0
parked_one (some who) = 1

abbrev pub is_done : Option ℕ → Bool
is_done none = true
is_done (some left) = false

abbrev pub Within : Option ℕ → Type 0
Within none = Unit {0}
Within (some left) = left ≤ n_items

pub record IsDelivering (s : Demo) (held : List ℕ) : Type 0 where
  pub holds : Holds chan_cap 0 s.chan.ring held
  pub order : s.got ++ held ≡ upto (sent_by s.left)
  pub bound : Within s.left
  pub closing : s.chan.closed ≡ is_done s.left
  pub sender_waits : (s.chan.sender ≡ none) ⊎ (length held ≡ chan_cap)
  pub receiver_waits : (s.chan.receiver ≡ none) ⊎ (length held ≡ 0) × (s.chan.closed ≡ false)
  pub over : (s.receiving ≡ true) ⊎ (length held ≡ 0) × (s.chan.closed ≡ true)
  pub running : s.has_aborted ≡ false

abbrev pub Delivering : Demo → Type 0
Delivering s = (held : List ℕ) × IsDelivering s held

sent_next :
    (left : ℕ)
    → suc left ≤ n_items
    → upto (n_items - suc left) ++ ((n_items - suc left) ∷ []) ≡ upto (n_items - left)
sent_next left b = let e : suc (n_items - suc left) ≡ n_items - left = omega arith in ap upto e

-- An item that goes into the channel.
insert-IsDelivering :
    (left : ℕ) (s : Demo) (held : List ℕ)
    → s.left ≡ some (suc left)
    → s.chan.closed ≡ false
    → length held ≢ chan_cap
    → IsDelivering s held
    → IsDelivering
        (record s {
          chan = record s.chan {
            ring = insert chan_cap (n_items - suc left) s.chan.ring;
            receiver = none;
            closed = false;
          };
          left = some left;
        })
        (held ++ ((n_items - suc left) ∷ []))
insert-IsDelivering left s held e open_still room h =
    let b : suc left ≤ n_items = subst Within e h.bound in
    let n = length-Holds chan_cap 0 h.holds in
    record {
      holds = insert-Holds chan_cap 0 (n_items - suc left) h.holds (omega (arith, h.holds.size_in));
      order =
          sym (append_assoc s.got held ((n_items - suc left) ∷ []))
          ∙ ap (λ xs. xs ++ ((n_items - suc left) ∷ [])) (h.order ∙ ap (λ o. upto (sent_by o)) e)
          ∙ sent_next left b;
      bound = omega arith;
      closing = refl;
      sender_waits = elim h.sender_waits [
        | inl nobody ↦ inl nobody
        | inr full ↦ absurd (room full)
      ];
      receiver_waits = inl refl;
      over = elim h.over [
        | inl going ↦ inl going
        | inr (_, closed) ↦ ground (arith, open_still, closed)
      ];
      running = h.running;
    }

pub producer_run-Delivering :
    (left : ℕ) (s : Demo) → s.left ≡ some left → Delivering s → Delivering (producer_run left s)
unfolding producer_run chan_send chan_close
producer_run-Delivering zero s e (held, h) = (
  held,
  record {
    holds = h.holds;
    order = h.order ∙ ap (λ o. upto (sent_by o)) e;
    bound = tt;
    closing = refl;
    sender_waits = h.sender_waits;
    receiver_waits = inl refl;
    over = elim h.over [ inl going ↦ inl going | inr (empty, _) ↦ inr (empty, refl) ];
    running = h.running;
  },
)
producer_run-Delivering (suc left) s e (held, h) =
    let open_still : s.chan.closed ≡ false = h.closing ∙ ap is_done e in
    let n : length held ≡ s.chan.ring.size = length-Holds chan_cap 0 h.holds in
    elim (ℕ-cases s.chan.ring.size chan_cap) [
      | inl full ↦
          let test : (s.chan.ring.size == chan_cap) ≡ true = ground arith in
          rw (test, open_still, chan_send, producer_run)
            (
              held,
              record {
                holds = h.holds;
                order = h.order ∙ ap (λ o. upto (sent_by o)) e;
                bound = subst Within e h.bound;
                closing = refl;
                sender_waits = inr (omega arith);
                receiver_waits = elim h.receiver_waits [
                  | inl nobody ↦ inl nobody
                  | inr (empty, _) ↦ inr (empty, refl)
                ];
                over = elim h.over [
                  | inl going ↦ inl going
                  | inr (_, closed) ↦ ground (arith, open_still, closed)
                ];
                running = h.running;
              },
            )
      | inr room ↦
          let test : (s.chan.ring.size == chan_cap) ≡ false = ground arith in
          rw (test, open_still, chan_send, producer_run)
            (producer_run-Delivering left
              (record s {
                chan = record s.chan {
                  ring = insert chan_cap (n_items - suc left) s.chan.ring;
                  receiver = none;
                  closed = false;
                };
                left = some left;
              })
              refl
              (
                held ++ ((n_items - suc left) ∷ []),
                insert-IsDelivering left s held e open_still (λ f. room (sym n ∙ f)) h,
              ))
    ]
