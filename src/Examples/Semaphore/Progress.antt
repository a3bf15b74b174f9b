-- ===== src/Examples/Semaphore/Progress.antt =====
-- The workers of examples/semaphore.c all get through, and a mutex keeps their counter right.
use c_coroutine.Base.{
  ℕ, ◌*◌, ◌<◌, ◌≡◌, ◌≢◌, refl, ap, ◌∙◌, List, Option, none, some, arith, get_or, lt→ltb, le→ltb,
  inl, inr, ℕ-cases, ◌⊎◌, length, length-replicate,
}
use c_coroutine.Examples.Crowd.{
  Crowd, crowd_turn, resume, turn-cases, total, total-set, total-replicate, total-nowhere,
  AllReturned, set_same, length-turn, turn-absent,
}
use c_coroutine.Examples.Turns.{rounds, AllFair, rounds_done}
use c_coroutine.Examples.Semaphore.{
  sem_wait, Shared, Worker, fresh, waiting, holding, incremented, worker, started,
}
use c_coroutine.Examples.Semaphore.Exclusion.{inside, IsCounted, started-IsCounted, turn-IsCounted}

-- The turns that a worker needs, those in which it is suspended not counted.
abbrev needs : Option Worker → ℕ
needs none = 0
needs (some fresh) = 4
needs (some waiting) = 3
needs (some (holding before)) = 2
needs (some incremented) = 1

abbrev work : Crowd Worker Shared → ℕ
work c = total needs c.locals

-- What a worker that a turn does not change is doing.
abbrev Blocked : Crowd Worker Shared → Option Worker → Type 0
Blocked c o = (o ≡ none) ⊎ (o ≡ some waiting) × (c.shared.sem.count ≡ 0)

resume-moves :
    (i : ℕ) (c : Crowd Worker Shared) (l : Worker)
    → get_or c.locals i none ≡ some l
    → Blocked c (some l) × (resume worker i (some l) c ≡ c)
      ⊎ (work (resume worker i (some l) c) < work c)
unfolding worker sem_wait
resume-moves i c fresh e = inr (omega (arith, total-set needs c.locals i (some waiting) e))
resume-moves i c waiting e = elim (ℕ-cases c.shared.sem.count 0) [
  | inl z ↦ inl (
    inr (refl, z),
    rw (le→ltb 0 c.shared.sem.count (omega arith), sem_wait, worker)
        (ap (λ os. record c { locals = os }) (set_same c.locals i e)),
  )
  | inr nz ↦ inr (
      rw (lt→ltb 0 c.shared.sem.count (omega arith), sem_wait, worker)
        (omega (arith, total-set needs c.locals i (some (holding c.shared.shared_counter)) e)))
]
resume-moves i c (holding before) e =
    inr (omega (arith, total-set needs c.locals i (some incremented) e))
resume-moves i c incremented e = inr (omega (arith, total-set needs c.locals i none e))

moves :
    (i : ℕ) (c : Crowd Worker Shared)
    → Blocked c (get_or c.locals i none) × (crowd_turn worker i c ≡ c)
      ⊎ (work (crowd_turn worker i c) < work c)
moves i c = elim (turn-cases worker i c) [
  | inl (e, same) ↦ inl (inl e, same)
  | inr (l, e, e') ↦ rw (e, e') (resume-moves i c l e)
]

abbrev IsGoing : ℕ → ℕ → Crowd Worker Shared → Type 0
IsGoing num_slots num_workers c = IsCounted num_slots c × (length c.locals ≡ num_workers)

Blocked-inside : (c : Crowd Worker Shared) (o : Option Worker) → Blocked c o → inside o ≡ 0
Blocked-inside c o (inl e) = rw e refl
Blocked-inside c o (inr (e, _)) = rw e refl

-- All have returned, and all slots are free.
abbrev pub AllThrough : ℕ → Crowd Worker Shared → Type 0
AllThrough num_slots c = AllReturned c × (c.shared.sem.count ≡ num_slots)

all-stuck :
    (num_slots num_workers : ℕ)
    → num_slots ≢ 0
    → (c : Crowd Worker Shared) → IsGoing num_slots num_workers c
    → ((i : ℕ) → crowd_turn worker i c ≡ c)
    → AllThrough num_slots c
all-stuck num_slots num_workers slots c (h, _) same =
    let blocked : (j : ℕ) → Blocked c (get_or c.locals j none) = λ j. elim (moves j c) [
      | inl (b, _) ↦ b
      | inr less ↦ absurd (omega (arith, ap work (same j)))
    ] in
    let none_inside : total inside c.locals ≡ 0 =
      total-nowhere inside c.locals (λ j. Blocked-inside c (get_or c.locals j none) (blocked j)) in
    (
      (λ i. elim (blocked i) [ inl e ↦ e | inr (_, z) ↦ absurd (omega (arith, h.counted)) ]),
      omega (arith, h.counted),
    )

-- If the semaphore has a slot, more than 4 rounds for each worker, in which every worker has a
-- turn, in any order, lead to the return of all workers with all slots free.
pub all_workers_finish :
    (num_slots num_workers : ℕ)
    → num_slots ≢ 0
    → (schedule : List (List ℕ)) → AllFair (λ i. i < num_workers) schedule
    → 4 * num_workers < length schedule
    → AllThrough num_slots (rounds (crowd_turn worker) schedule (started num_slots num_workers))
unfolding started
all_workers_finish num_slots num_workers slots schedule fair enough =
    rounds_done (crowd_turn worker) (λ i. i < num_workers) (IsGoing num_slots num_workers)
      (AllThrough num_slots)
      (record {
        work = work;
        keep = λ i c (h, n). (turn-IsCounted num_slots i c h, length-turn worker i c ∙ n);
        moves = λ i c h. elim (moves i c) [ inl (_, same) ↦ inl same | inr less ↦ inr less ];
        stuck = λ c h same. all-stuck num_slots num_workers slots c h same;
        absent = λ i c (_, n). turn-absent worker i num_workers c n;
      })
      schedule (started num_slots num_workers) fair
      (omega (arith, total-replicate needs num_workers (some fresh)))
      (started-IsCounted num_slots num_workers, length-replicate num_workers (some fresh))
