-- ===== src/Examples/Semaphore/Exclusion.antt =====
-- The semaphore of examples/semaphore.c bounds the coroutines in the critical section.
use c_coroutine.Base.{
  ℕ, ◌+◌, ◌≤◌, ◌<◌, ◌≡◌, refl, List, Option, none, some, arith, get_or, lt→ltb, le→ltb, inl, inr,
  ℕ-cases,
}
use c_coroutine.Examples.Crowd.{
  Crowd, crowd_turn, resume, turn-cases, total, total-set, total-replicate,
}
use c_coroutine.Examples.Turns.{turns, turns_keep}
use c_coroutine.Examples.Semaphore.{
  sem_init, sem_wait, sem_post, Shared, Worker, fresh, waiting, holding, incremented, worker,
  started,
}

-- One for a coroutine in the critical section.
abbrev pub inside : Option Worker → ℕ
inside (some (holding before)) = 1
inside (some incremented) = 1
inside _ = 0

pub record IsCounted (num_slots : ℕ) (c : Crowd Worker Shared) : Type 0 where
  pub slots : c.shared.sem.max ≡ num_slots
  pub counted : c.shared.sem.count + total inside c.locals ≡ num_slots

pub started-IsCounted :
    (num_slots num_workers : ℕ) → IsCounted num_slots (started num_slots num_workers)
unfolding started sem_init
started-IsCounted num_slots num_workers = record {
  slots = refl;
  counted = omega (arith, total-replicate inside num_workers (some fresh));
}

resume-IsCounted :
    (num_slots i : ℕ) (c : Crowd Worker Shared) (l : Worker)
    → get_or c.locals i none ≡ some l
    → IsCounted num_slots c
    → IsCounted num_slots (resume worker i (some l) c)
unfolding worker sem_wait sem_post
resume-IsCounted num_slots i c fresh e h = record {
  slots = h.slots;
  counted = omega (arith, total-set inside c.locals i (some waiting) e, h.counted);
}
resume-IsCounted num_slots i c waiting e h = elim (ℕ-cases c.shared.sem.count 0) [
  | inl z ↦
      rw (le→ltb 0 c.shared.sem.count (omega arith), sem_wait, worker)
        (record {
          slots = h.slots;
          counted = omega (arith, total-set inside c.locals i (some waiting) e, h.counted);
        })
  | inr nz ↦
      rw (lt→ltb 0 c.shared.sem.count (omega arith), sem_wait, worker)
        (record {
          slots = h.slots;
          counted = omega (
            arith,
            total-set inside c.locals i (some (holding c.shared.shared_counter)) e,
            h.counted,
          );
        })
]
resume-IsCounted num_slots i c (holding before) e h = record {
  slots = h.slots;
  counted = omega (arith, total-set inside c.locals i (some incremented) e, h.counted);
}
resume-IsCounted num_slots i c incremented e h =
    let t = total-set inside c.locals i none e in
    let room : c.shared.sem.count < c.shared.sem.max = omega (arith, h.slots, h.counted) in
    rw (lt→ltb c.shared.sem.count c.shared.sem.max room, sem_post, worker)
      (record { slots = h.slots; counted = omega (arith, t, h.counted) })

pub turn-IsCounted :
    (num_slots i : ℕ) (c : Crowd Worker Shared)
    → IsCounted num_slots c
    → IsCounted num_slots (crowd_turn worker i c)
turn-IsCounted num_slots i c h = elim (turn-cases worker i c) [
  | inl (_, e) ↦ rw e h
  | inr (l, e, e') ↦ rw e' (resume-IsCounted num_slots i c l e h)
]

-- After any sequence of turns, however many workers there are, no more of them are in the critical
-- section than the semaphore has slots, and its count is the number of slots left.
pub at_most_slots :
    (num_slots num_workers : ℕ) (schedule : List ℕ)
    → let c = turns (crowd_turn worker) schedule (started num_slots num_workers) in
      (total inside c.locals ≤ num_slots) × (c.shared.sem.count + total inside c.locals ≡ num_slots)
at_most_slots num_slots num_workers schedule =
    let h =
      turns_keep (crowd_turn worker) (IsCounted num_slots) (turn-IsCounted num_slots) schedule
        (started num_slots num_workers) (started-IsCounted num_slots num_workers) in
    (omega (arith, h.counted), h.counted)
