-- ===== src/Examples/StateMachine/Queue.antt =====
-- The queue of examples/state_machine.c as a list of at most 16 events.
use c_coroutine.Base.{
  ◌≡◌, refl, List, [], ◌∷◌, ◌++◌, true, false, arith, length, ◌==◌, if◌then◌else◌, Bool-cases, inl,
  inr,
}
use c_coroutine.Ring.{Ring, Holds, insert-Holds, remove-Holds, length-Holds}
use c_coroutine.Examples.StateMachine.{Event, evt_none, event_cap, push_event, pop_event}

-- The events that are queued, oldest first.
abbrev pub Queued : Ring Event → List Event → Type 0
Queued = Holds event_cap evt_none

abbrev pub pushed : List Event → Event → List Event
pushed es e = if length es == event_cap then es else es ++ (e ∷ [])

abbrev pub front : List Event → Event
front [] = evt_none
front (e ∷ es) = e

abbrev pub behind : List Event → List Event
behind [] = []
behind (e ∷ es) = es

pub push_event-Queued :
    {q : Ring Event} (es : List Event) (e : Event)
    → Queued q es
    → Queued (push_event q e) (pushed es e)
unfolding push_event
push_event-Queued {q} es e h =
    let n = length-Holds event_cap evt_none h in
    elim (Bool-cases (q.size == event_cap)) [
      | inl full ↦
          let test : (length es == event_cap) ≡ true = ground arith in rw (full, test, push_event) h
      | inr room ↦
          let test : (length es == event_cap) ≡ false = ground arith in
          rw (room, test, push_event)
            (insert-Holds event_cap evt_none e h (ground (arith, h.size_in)))
    ]

pub pop_event-Queued :
    {q : Ring Event} (es : List Event)
    → Queued q es
    → ((pop_event q).0 ≡ front es) × Queued (pop_event q).1 (behind es)
unfolding pop_event
pop_event-Queued {q} [] h =
    let n = length-Holds event_cap evt_none h in
    let test : (q.size == 0) ≡ true = ground arith in rw (test, pop_event) (refl, h)
pop_event-Queued {q} (e ∷ es) h =
    let n = length-Holds event_cap evt_none h in
    let test : (q.size == 0) ≡ false = ground arith in
    rw (test, pop_event) (remove-Holds event_cap evt_none h)
