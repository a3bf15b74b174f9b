-- ===== src/Examples/StateMachine.antt =====
-- examples/state_machine.c: the states of a connection as coroutines, and a queue of events.
-- co_resume is not in include/coroutine.h; as the program uses it, it runs a coroutine to its next
-- `co_yield` or its end and returns to its caller, and does nothing to one that has returned.
pub mod Queue
pub mod Transfer
pub mod Handshake
use c_coroutine.Base.{
  ℕ, ◌+◌, List, [], ◌∷◌, get_or, ltb, ◌==◌, if◌then◌else◌, ◌≡◌, refl, ◌⊎◌, inl, inr,
}
use c_coroutine.Ring.{Ring, insert, remove, empty}

pub data Event : Type 0 where
  evt_none evt_syn evt_syn_ack evt_fin evt_reset evt_data : Event

abbrev pub event_cap : ℕ
event_cap = 16

-- An event for which there is no room is dropped.
unfoldable pub push_event : Ring Event → Event → Ring Event
push_event q e = if q.size == event_cap then q else insert event_cap e q

unfoldable pub pop_event : Ring Event → Event × Ring Event
pop_event q =
    if q.size == 0 then (evt_none, q) else (get_or q.slots q.head evt_none, remove event_cap q)

-- Where a coroutine is: not yet started, at its yield, or at its end.
pub data Place : Type 0 where
  fresh waiting returned : Place

pub place-cases : (p : Place) → (p ≡ fresh) ⊎ (p ≡ waiting) ⊎ (p ≡ returned)
place-cases fresh = inl refl
place-cases waiting = inr (inl refl)
place-cases returned = inr (inr refl)

-- `g_queue`, the coroutines and `g_bytes_transferred`.
pub record Fsm : Type 0 where
  pub queue : Ring Event
  pub syn_sent : Place
  pub established : Place
  pub closing : Place
  pub bytes_transferred : ℕ

-- `co_resume` of the three coroutines.
unfoldable pub resume_closing : Fsm → Fsm
resume_closing s = elim s.closing [
  | fresh ↦ record s { closing = waiting }
  | waiting ↦ record s { closing = returned }
  | returned ↦ s
]

-- The branches of `state_established` on the event that it has taken.
unfoldable pub on_established : Event → Fsm → Fsm
on_established evt_data s =
    let transferred = s.bytes_transferred + 512 in
    if ltb transferred 1024
    then record s { queue = push_event s.queue evt_data; bytes_transferred = transferred }
    else resume_closing (record s {
      queue = push_event s.queue evt_fin;
      established = returned;
      bytes_transferred = transferred;
    })
on_established evt_fin s = resume_closing (record s { established = returned })
on_established evt_reset s = record s { established = returned }
on_established _ s = s

unfoldable pub resume_established : Fsm → Fsm
resume_established s = elim s.established [
  | fresh ↦ record s { established = waiting }
  | waiting ↦
      let popped = pop_event s.queue in on_established popped.0 (record s { queue = popped.1 })
  | returned ↦ s
]

-- The branches of `state_syn_sent`.
unfoldable pub on_syn_sent : Event → Fsm → Fsm
on_syn_sent evt_syn_ack s =
    resume_established (record s { queue = push_event s.queue evt_data; syn_sent = returned })
on_syn_sent evt_reset s = record s { syn_sent = returned }
on_syn_sent _ s = s

unfoldable pub resume_syn_sent : Fsm → Fsm
resume_syn_sent s = elim s.syn_sent [
  | fresh ↦ record s { syn_sent = waiting }
  | waiting ↦ let popped = pop_event s.queue in on_syn_sent popped.0 (record s { queue = popped.1 })
  | returned ↦ s
]

-- What the pump does: it queues an event, or resumes one of the coroutines.
pub data Action : Type 0 where
  arrives : Event → Action
  resumes_syn_sent resumes_established resumes_closing : Action

unfoldable pub act : Action → Fsm → Fsm
act (arrives e) s = record s { queue = push_event s.queue e }
act resumes_syn_sent s = resume_syn_sent s
act resumes_established s = resume_established s
act resumes_closing s = resume_closing s

abbrev pub event_pump : List Action
event_pump =
    arrives evt_syn
    ∷ resumes_syn_sent
    ∷ arrives evt_syn_ack
    ∷ resumes_syn_sent
    ∷ resumes_established
    ∷ resumes_closing
    ∷ []

abbrev pub started : Fsm
started = record {
  queue = empty event_cap evt_none;
  syn_sent = fresh;
  established = fresh;
  closing = fresh;
  bytes_transferred = 0;
}
