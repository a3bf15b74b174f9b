-- ===== src/Runtime/Queue/Sequence.antt =====
-- Any sequence of calls of `q_push` and `q_pop` of src/coroutine.c, against a bounded queue.
use c_coroutine.Base.{
  ◌≡◌, refl, ap, ap₂, ◌∙◌, List, [], ◌∷◌, ◌++◌, Option, none, some, arith, length, ltb,
  if◌then◌else◌, Bool-cases, inl, inr,
}
use c_coroutine.Runtime.Types.{Ptr, queue_cap, RunQueue}
use c_coroutine.Runtime.Queue.{q_push, q_pop}
use c_coroutine.Runtime.Queue.Fifo.{
  IsRing, contents, length-window, pop_front, q_push_fifo, q_push-full, q_pop_fifo,
}

pub data Call : Type 0 where
  push : Ptr → Call
  pop : Call

abbrev answer : Ptr → Option (List Ptr) → Option (List Ptr)
answer p none = none
answer p (some ps) = some (p ∷ ps)

-- What the pops of a sequence return; `none` if a push fails its assertion.
unfoldable pub run : List Call → RunQueue → Option (List Ptr)
run [] q = some []
run (push p ∷ calls) q = elim (q_push p q) [ none ↦ none | some q' ↦ run calls q' ]
run (pop ∷ calls) q = let popped = q_pop q in answer popped.0 (run calls popped.1)

-- The same on a list that holds at most `queue_cap` entries.
abbrev pub run_spec : List Call → List Ptr → Option (List Ptr)
run_spec [] ps = some []
run_spec (push p ∷ calls) ps =
    let rest = run_spec calls (ps ++ (p ∷ [])) in if ltb (length ps) queue_cap then rest else none
run_spec (pop ∷ calls) ps = let popped = pop_front ps in answer popped.0 (run_spec calls popped.1)

-- Started on a well-formed ring, no sequence of calls of q_push and q_pop can be told from the
-- same calls on a first-in first-out list that holds at most the capacity: the same pops, null on
-- an empty queue, and the same failures of the assertion.
pub run_refines :
    (calls : List Call) {q : RunQueue} → IsRing q → run calls q ≡ run_spec calls (contents q)
unfolding run
run_refines [] r = refl
run_refines (push p ∷ calls) {q} r = elim (Bool-cases (ltb q.q_size queue_cap)) [
  | inl room ↦
      let (q', e, r', c) = q_push_fifo p r (ground (arith, room)) in
      rw (e, run, length-window q.queue q.q_head q.q_size, room)
        (run_refines calls r' ∙ ap (run_spec calls) c)
  | inr no_room ↦
      rw (q_push-full p q no_room, run, length-window q.queue q.q_head q.q_size, no_room) refl
]
run_refines (pop ∷ calls) {q} r =
    let (r', p, c) = q_pop_fifo r in ap₂ answer p (run_refines calls r' ∙ ap (run_spec calls) c)
