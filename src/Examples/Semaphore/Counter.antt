-- ===== src/Examples/Semaphore/Counter.antt =====
-- The counter that the workers of examples/semaphore.c read and write with a yield in between.
use c_coroutine.Base.{
  ℕ, ◌+◌, ◌≤◌, ◌≡◌, refl, ap, Option, none, some, arith, get_or, List, [], ◌∷◌, lt→ltb, le→ltb, inl,
  inr, ℕ-cases, ◌⊎◌, set,
}
use c_coroutine.Examples.Crowd.{
  Crowd, crowd_turn, resume, turn-cases, total, total-set, total-replicate, total-nowhere,
  AllReturned,
}
use c_coroutine.Examples.Turns.{turns, turns_keep}
use c_coroutine.Examples.Semaphore.{
  sem_wait, Shared, Worker, fresh, waiting, holding, incremented, worker, started,
}
use c_coroutine.Examples.Semaphore.Exclusion.{inside, IsCounted, started-IsCounted, turn-IsCounted}

-- One for a worker that has yet to write the counter.
abbrev todo : Option Worker → ℕ
todo none = 0
todo (some fresh) = 1
todo (some waiting) = 1
todo (some (holding before)) = 1
todo (some incremented) = 0

-- One for a worker that has read the counter and not written it, and what it has read.
abbrev held : Option Worker → ℕ
held (some (holding before)) = 1
held _ = 0

abbrev value : Option Worker → ℕ
value (some (holding before)) = before
value _ = 0

held-inside : (o : Option Worker) → held o ≤ inside o
held-inside none = omega arith
held-inside (some fresh) = omega arith
held-inside (some waiting) = omega arith
held-inside (some (holding before)) = omega arith
held-inside (some incremented) = omega arith

total-held-inside : (os : List (Option Worker)) → total held os ≤ total inside os
total-held-inside [] = omega arith
total-held-inside (o ∷ os) = omega (arith, held-inside o, total-held-inside os)

held-value : (o : Option Worker) → held o ≡ 0 → value o ≡ 0
held-value none h = refl
held-value (some fresh) h = refl
held-value (some waiting) h = refl
held-value (some (holding before)) h = absurd (omega arith)
held-value (some incremented) h = refl

total-held-value : (os : List (Option Worker)) → total held os ≡ 0 → total value os ≡ 0
total-held-value [] h = refl
total-held-value (o ∷ os) h =
    omega (arith, held-value o (omega arith), total-held-value os (omega arith))

-- Nobody is between the read and the write, or one is, and has read the present value.
abbrev IsFresh : List (Option Worker) → ℕ → Type 0
IsFresh os counter = (total held os ≡ 0) ⊎ (total held os ≡ 1) × (total value os ≡ counter)

record IsExact (num_workers : ℕ) (c : Crowd Worker Shared) : Type 0 where
  counted : IsCounted 1 c
  remaining : c.shared.shared_counter + total todo c.locals ≡ num_workers
  seen : IsFresh c.locals c.shared.shared_counter

-- A turn that neither reads nor writes the counter.
set-IsFresh :
    (os : List (Option Worker)) (i counter : ℕ) (v : Option Worker) {l : Worker}
    → get_or os i none ≡ some l
    → held (some l) ≡ 0
    → held v ≡ 0
    → IsFresh os counter
    → IsFresh (set os i v) counter
set-IsFresh os i counter v {l} e hl hv h =
    let t = total-set held os i v e in
    let t' = total-set value os i v e in
    elim h [
      | inl z ↦ inl (omega arith)
      | inr (one, same) ↦ inr (omega arith, omega (arith, held-value (some l) hl, held-value v hv))
    ]

resume-exact :
    (num_workers i : ℕ) (c : Crowd Worker Shared) (l : Worker)
    → get_or c.locals i none ≡ some l
    → IsExact num_workers c
    → let c' = resume worker i (some l) c in
      (c'.shared.shared_counter + total todo c'.locals ≡ num_workers)
      × IsFresh c'.locals c'.shared.shared_counter
unfolding worker sem_wait
resume-exact num_workers i c fresh e h = (
  omega (arith, total-set todo c.locals i (some waiting) e, h.remaining),
  set-IsFresh c.locals i c.shared.shared_counter (some waiting) e refl refl h.seen,
)
resume-exact num_workers i c waiting e h = elim (ℕ-cases c.shared.sem.count 0) [
  | inl z ↦
      rw (le→ltb 0 c.shared.sem.count (omega arith), sem_wait, worker)
        (
          omega (arith, total-set todo c.locals i (some waiting) e, h.remaining),
          set-IsFresh c.locals i c.shared.shared_counter (some waiting) e refl refl h.seen,
        )
  | inr nz ↦
      let v = some (holding c.shared.shared_counter) in
      let nobody : total held c.locals ≡ 0 =
        omega (arith, total-held-inside c.locals, h.counted.counted) in
      let t = total-set held c.locals i v e in
      let t' = total-set value c.locals i v e in
      rw (lt→ltb 0 c.shared.sem.count (omega arith), sem_wait, worker)
        (
          omega (arith, total-set todo c.locals i v e, h.remaining),
          inr (omega arith, omega (arith, total-held-value c.locals nobody)),
        )
]
resume-exact num_workers i c (holding before) e h =
    let t = total-set held c.locals i (some incremented) e in
    let t' = total-set value c.locals i (some incremented) e in
    elim h.seen [
      | inl z ↦ absurd (omega arith)
      | inr (one, same) ↦
          let gone : total held (set c.locals i (some incremented)) ≡ 0 = omega arith in
          (
            omega (
              arith,
              total-set todo c.locals i (some incremented) e,
              h.remaining,
              total-held-value (set c.locals i (some incremented)) gone,
            ),
            inl gone,
          )
    ]
resume-exact num_workers i c incremented e h = (
  omega (arith, total-set todo c.locals i none e, h.remaining),
  set-IsFresh c.locals i c.shared.shared_counter none e refl refl h.seen,
)

turn-IsExact :
    (num_workers i : ℕ) (c : Crowd Worker Shared)
    → IsExact num_workers c
    → IsExact num_workers (crowd_turn worker i c)
turn-IsExact num_workers i c h = elim (turn-cases worker i c) [
  | inl (_, same) ↦ rw same h
  | inr (l, e, e') ↦
      let r = resume-exact num_workers i c l e h in
      record { counted = turn-IsCounted 1 i c h.counted; remaining = rw e' r.0; seen = rw e' r.1 }
]

-- With one slot, after any sequence of turns that ends with all workers returned, the counter that
-- each reads and writes with a yield in between is the number of workers.
pub mutex_counts :
    (num_workers : ℕ) (schedule : List ℕ)
    → let c = turns (crowd_turn worker) schedule (started 1 num_workers) in
      AllReturned c → c.shared.shared_counter ≡ num_workers
unfolding started
mutex_counts num_workers schedule all =
    let c = turns (crowd_turn worker) schedule (started 1 num_workers) in
    let h : IsExact num_workers c =
      turns_keep (crowd_turn worker) (IsExact num_workers) (turn-IsExact num_workers) schedule
        (started 1 num_workers)
        (record {
          counted = started-IsCounted 1 num_workers;
          remaining = omega (arith, total-replicate todo num_workers (some fresh));
          seen = inl (omega (arith, total-replicate held num_workers (some fresh)));
        }) in
    omega (arith, h.remaining, total-nowhere todo c.locals (λ i. ap todo (all i)))
