-- ===== src/Examples/StateMachine/Transfer.antt =====
-- The bytes that a connection of examples/state_machine.c transfers.
use c_coroutine.Base.{ℕ, ◌+◌, ◌≡◌, ◌≢◌, refl, List, arith, lt→ltb, le→ltb, inl, inr, ◌⊎◌}
use c_coroutine.Examples.Turns.{turns, turns_keep}
use c_coroutine.Examples.StateMachine.{
  Event, evt_none, evt_syn, evt_syn_ack, evt_fin, evt_reset, evt_data, push_event, pop_event, Place,
  waiting, returned, Fsm, resume_closing, on_established, resume_established, on_syn_sent,
  resume_syn_sent, Action, arrives, resumes_syn_sent, resumes_established, resumes_closing, act,
  started, place-cases,
}

-- Nothing, one block, or two blocks by a coroutine that has returned.
abbrev pub Counts : ℕ → Place → Type 0
Counts b p = (b ≡ 0) ⊎ (b ≡ 512) ⊎ (b ≡ 1024) × (p ≡ returned)

abbrev pub IsCounted : Fsm → Type 0
IsCounted s = Counts s.bytes_transferred s.established

Counts-returned : {b : ℕ} {p : Place} → Counts b p → Counts b returned
Counts-returned (inl z) = inl z
Counts-returned (inr (inl z)) = inr (inl z)
Counts-returned (inr (inr (z, _))) = inr (inr (z, refl))

resume_closing-IsCounted : (s : Fsm) → IsCounted s → IsCounted (resume_closing s)
unfolding resume_closing
resume_closing-IsCounted s h = elim (place-cases s.closing) [
  | inl e ↦ rw (e, resume_closing) h
  | inr (inl e) ↦ rw (e, resume_closing) h
  | inr (inr e) ↦ rw (e, resume_closing) h
]

Counts-unless : {b : ℕ} {p : Place} (q : Place) → Counts b p → p ≢ returned → Counts b q
Counts-unless q (inl z) n = inl z
Counts-unless q (inr (inl z)) n = inr (inl z)
Counts-unless q (inr (inr (_, r))) n = absurd (n r)

on_established-IsCounted :
    (e : Event) (s : Fsm) → s.established ≡ waiting → IsCounted s → IsCounted (on_established e s)
unfolding on_established
on_established-IsCounted evt_none s w h = h
on_established-IsCounted evt_syn s w h = h
on_established-IsCounted evt_syn_ack s w h = h
on_established-IsCounted evt_fin s w h =
    resume_closing-IsCounted (record s { established = returned }) (Counts-returned h)
on_established-IsCounted evt_reset s w h = Counts-returned h
on_established-IsCounted evt_data s w (inl z) =
    rw (lt→ltb (s.bytes_transferred + 512) 1024 (omega arith), on_established)
      (inr (inl (omega arith)))
on_established-IsCounted evt_data s w (inr (inl z)) =
    rw (le→ltb (s.bytes_transferred + 512) 1024 (omega arith), on_established)
      (resume_closing-IsCounted
        (record s {
          queue = push_event s.queue evt_fin;
          established = returned;
          bytes_transferred = s.bytes_transferred + 512;
        })
        (inr (inr (omega arith, refl))))
on_established-IsCounted evt_data s w (inr (inr (_, r))) = cc

resume_established-IsCounted : (s : Fsm) → IsCounted s → IsCounted (resume_established s)
unfolding resume_established
resume_established-IsCounted s h = elim (place-cases s.established) [
  | inl e ↦ rw (e, resume_established) (Counts-unless waiting h (λ r. cc))
  | inr (inl e) ↦
      rw (e, resume_established)
        (on_established-IsCounted (pop_event s.queue).0 (record s { queue = (pop_event s.queue).1 })
          e h)
  | inr (inr e) ↦ rw (e, resume_established) h
]

on_syn_sent-IsCounted : (e : Event) (s : Fsm) → IsCounted s → IsCounted (on_syn_sent e s)
unfolding on_syn_sent
on_syn_sent-IsCounted evt_syn_ack s h =
    resume_established-IsCounted
      (record s { queue = push_event s.queue evt_data; syn_sent = returned }) h
on_syn_sent-IsCounted evt_none s h = h
on_syn_sent-IsCounted evt_syn s h = h
on_syn_sent-IsCounted evt_fin s h = h
on_syn_sent-IsCounted evt_reset s h = h
on_syn_sent-IsCounted evt_data s h = h

resume_syn_sent-IsCounted : (s : Fsm) → IsCounted s → IsCounted (resume_syn_sent s)
unfolding resume_syn_sent
resume_syn_sent-IsCounted s h = elim (place-cases s.syn_sent) [
  | inl e ↦ rw (e, resume_syn_sent) h
  | inr (inl e) ↦
      rw (e, resume_syn_sent)
        (on_syn_sent-IsCounted (pop_event s.queue).0 (record s { queue = (pop_event s.queue).1 }) h)
  | inr (inr e) ↦ rw (e, resume_syn_sent) h
]

act-IsCounted : (a : Action) (s : Fsm) → IsCounted s → IsCounted (act a s)
unfolding act
act-IsCounted (arrives e) s h = h
act-IsCounted resumes_syn_sent s h = resume_syn_sent-IsCounted s h
act-IsCounted resumes_established s h = resume_established-IsCounted s h
act-IsCounted resumes_closing s h = resume_closing-IsCounted s h

-- After any sequence of events that are queued and of resumptions of the three coroutines, from
-- the start of the program, the bytes transferred are 0, 512 or 1024, and 1024 only if ESTABLISHED
-- has returned.
pub whole_blocks : (actions : List Action) → IsCounted (turns act actions started)
whole_blocks actions = turns_keep act IsCounted act-IsCounted actions started (inl refl)
