-- ===== src/Examples/FiberPool/Drained.antt =====
-- The pool of examples/fiber_pool.c processes every task, and `main` returns 0.
use c_coroutine.Base.{
  ℕ, zero, suc, ◌+◌, ◌≤◌, ◌<◌, ◌≡◌, ◌≢◌, refl, ap, ◌∙◌, List, [], ◌∷◌, ◌++◌, some, arith, true,
  false, ◌&&◌, length, length-append, length-replicate, replicate, ◌==◌, ltb, Bool-cases, inl, inr,
  ◌⊎◌,
}
use c_coroutine.Ring.{Ring, Holds, length-Holds, insert-cases, remove-cases, empty-Holds}
use c_coroutine.Examples.FiberPool.{
  queue_cap, queue_init, queue_push, queue_pop, worker_fn, enqueue_tasks, Round, resume_all,
  schedule, sum, out_of_range, main,
}

abbrev Queue : Ring ℕ → List ℕ → Type 0
Queue q tasks = Holds queue_cap 0 q tasks

enqueue-Queue :
    (left i : ℕ) (q : Ring ℕ) (tasks : List ℕ)
    → Queue q tasks
    → length tasks + left ≤ queue_cap
    → (tasks' : List ℕ) × Queue (enqueue_tasks left i q) tasks'
      × (length tasks' ≡ length tasks + left)
unfolding enqueue_tasks queue_push
enqueue-Queue zero i q tasks h room = (tasks, h, omega arith)
enqueue-Queue (suc left) i q tasks h room = elim (insert-cases queue_cap 0 (i + 1) h) [
  | inl (_, full) ↦ absurd (omega arith)
  | inr (q', e, h') ↦
      let l = length-append tasks ((i + 1) ∷ []) in
      let (tasks', h'', l') =
        enqueue-Queue left (i + 1) q' (tasks ++ ((i + 1) ∷ [])) h' (omega arith) in
      rw (e, enqueue_tasks) (tasks', h'', omega arith)
]

-- A fiber takes the oldest task, or the queue is empty and nothing changes.
worker-cases :
    (before : ℕ) (q : Ring ℕ) (tasks : List ℕ)
    → Queue q tasks
    → (worker_fn before q ≡ (before, q)) × (length tasks ≡ 0)
      ⊎ (q' : Ring ℕ) × (others : List ℕ) × (worker_fn before q ≡ (before + 1, q'))
        × Queue q' others
        × (length tasks ≡ length others + 1)
unfolding worker_fn queue_pop
worker-cases before q tasks h = elim (remove-cases queue_cap 0 tasks h) [
  | inl (e, nil) ↦ inl (rw (e, worker_fn) refl, ap length nil)
  | inr (x, xs, q', c, e, h') ↦ inr (q', xs, rw (e, worker_fn) refl, h', ap length c ∙ omega arith)
]

-- What a round does: no task is lost, a round that starts with tasks takes one, and a round in
-- which all fibers idle leaves none.
record IsRound (args : List ℕ) (tasks : List ℕ) (r : Round) (tasks' : List ℕ) : Type 0 where
  queue : Queue r.queue tasks'
  fibers : length r.processed ≡ length args
  kept : sum r.processed + length tasks' ≡ sum args + length tasks
  fewer : (length args ≡ 0) ⊎ (length tasks ≡ 0) ⊎ (length tasks' < length tasks)
  shrinks : length tasks' ≤ length tasks
  idle : length tasks ≡ 0 → r.idle_rounds ≡ length args
  bound : r.idle_rounds ≤ length args
  empty : (length args ≡ 0) ⊎ (r.idle_rounds < length args) ⊎ (length tasks' ≡ 0)

resume_all-IsRound :
    (args : List ℕ) (q : Ring ℕ) (tasks : List ℕ)
    → Queue q tasks
    → (tasks' : List ℕ) × IsRound args tasks (resume_all args q) tasks'
unfolding resume_all
resume_all-IsRound [] q tasks h = (
  tasks,
  record {
    queue = h;
    fibers = refl;
    kept = refl;
    fewer = inl refl;
    shrinks = omega arith;
    idle = λ e. refl;
    bound = omega arith;
    empty = inl refl;
  },
)
resume_all-IsRound (before ∷ args) q tasks h = elim (worker-cases before q tasks h) [
  | inl (e, none_left) ↦
      let (tasks', r) = resume_all-IsRound args q tasks h in
      let n = length-Holds queue_cap 0 h in
      let test : (before == before && q.size == 0) ≡ true = ground arith in
      rw (e, test, resume_all)
        (
          tasks',
          record {
            queue = r.queue;
            fibers = omega (arith, r.fibers);
            kept = omega (arith, r.kept);
            fewer = inr (inl none_left);
            shrinks = r.shrinks;
            idle = λ z. omega (arith, r.idle z);
            bound = omega (arith, r.bound);
            empty = inr (inr (omega (arith, r.shrinks)));
          },
        )
  | inr (q', others, e, h', l) ↦
      let (tasks', r) = resume_all-IsRound args q' others h' in
      let test : (before + 1 == before) ≡ false = ground arith in
      rw (e, test, resume_all)
        (
          tasks',
          record {
            queue = r.queue;
            fibers = omega (arith, r.fibers);
            kept = omega (arith, r.kept);
            fewer = inr (inr (omega (arith, r.shrinks)));
            shrinks = omega (arith, r.shrinks);
            idle = λ z. absurd (omega arith);
            bound = omega (arith, r.bound);
            empty = inr (inl (omega (arith, r.bound)));
          },
        )
]

-- Enough fuel for a state of the loop that is to go on, or to end with the queue empty.
abbrev Enough : ℕ → ℕ → Round → List ℕ → Type 0
Enough fuel num_fibers s tasks =
    (s.idle_rounds < num_fibers) × (length tasks + 2 ≤ fuel)
    ⊎ (num_fibers ≤ s.idle_rounds) × (length tasks ≡ 0) × (1 ≤ fuel)

next-Enough :
    (fuel num_fibers : ℕ) (args tasks tasks' : List ℕ) (r : Round)
    → length args ≡ num_fibers
    → num_fibers ≢ 0
    → length tasks + 2 ≤ suc fuel
    → IsRound args tasks r tasks'
    → Enough fuel num_fibers r tasks'
next-Enough fuel num_fibers args tasks tasks' r l nz room h =
    elim (Bool-cases (ltb r.idle_rounds num_fibers)) [
      | inl more ↦ elim h.fewer [
        | inl none_at_all ↦ absurd (omega arith)
        | inr (inl z) ↦ absurd (ground (arith, more, h.idle z))
        | inr (inr less) ↦ inl (ground (arith, more), omega arith)
      ]
      | inr all ↦
          let idle : num_fibers ≤ r.idle_rounds = ground (arith, all) in
          elim h.empty [
            | inl none_at_all ↦ absurd (omega arith)
            | inr (inl less) ↦ absurd (omega arith)
            | inr (inr empty) ↦ inr (idle, empty, omega arith)
          ]
    ]

schedule-ends :
    (fuel num_fibers : ℕ) (s : Round) (tasks : List ℕ)
    → num_fibers ≢ 0
    → Queue s.queue tasks
    → length s.processed ≡ num_fibers
    → Enough fuel num_fibers s tasks
    → (s' : Round) × (schedule fuel num_fibers s ≡ some s')
      × (sum s'.processed ≡ sum s.processed + length tasks)
unfolding schedule
schedule-ends zero num_fibers s tasks nz h l (inl (_, room)) = absurd (omega arith)
schedule-ends zero num_fibers s tasks nz h l (inr (_, _, room)) = absurd (omega arith)
schedule-ends (suc fuel) num_fibers s tasks nz h l (inr (idle, z, _)) =
    let test : ltb s.idle_rounds num_fibers ≡ false = ground arith in
    (s, rw (test, schedule) refl, omega arith)
schedule-ends (suc fuel) num_fibers s tasks nz h l (inl (more, room)) =
    let test : ltb s.idle_rounds num_fibers ≡ true = ground arith in
    let (tasks', r) = resume_all-IsRound s.processed s.queue tasks h in
    let (s', e, total) =
      schedule-ends fuel num_fibers (resume_all s.processed s.queue) tasks' nz r.queue
        (r.fibers ∙ l)
        (next-Enough fuel num_fibers s.processed tasks tasks' (resume_all s.processed s.queue) l nz
          room r) in
    (s', rw (test, schedule) e, total ∙ r.kept)

sum-replicate : (n : ℕ) → sum (replicate n 0) ≡ 0
sum-replicate zero = refl
sum-replicate (suc n) = omega (arith, sum-replicate n)

-- With 1 to 32 fibers and 1 to 64 tasks, the loop of main ends within two rounds more than there
-- are tasks, and main returns 0: every task has been processed.
pub main_returns_zero :
    (fuel num_fibers num_tasks : ℕ)
    → 1 ≤ num_fibers
    → num_fibers ≤ 32
    → 1 ≤ num_tasks
    → num_tasks ≤ queue_cap
    → num_tasks + 2 ≤ fuel
    → main fuel num_fibers num_tasks ≡ some 0
unfolding main
main_returns_zero fuel num_fibers num_tasks f1 f2 t1 t2 enough =
    let test1 : out_of_range num_fibers 32 ≡ false = ground arith in
    let test2 : out_of_range num_tasks queue_cap ≡ false = ground arith in
    let (tasks, h, l) =
      enqueue-Queue num_tasks 0 queue_init [] (empty-Holds queue_cap 0 (omega arith))
        (omega arith) in
    let s : Round = record {
      processed = replicate num_fibers 0;
      queue = enqueue_tasks num_tasks 0 queue_init;
      idle_rounds = 0;
    } in
    let (s', e, total) =
      schedule-ends fuel num_fibers s tasks (omega arith) h (length-replicate num_fibers 0)
        (inl (omega arith, omega arith)) in
    let all : sum s'.processed ≡ num_tasks = omega (arith, total, sum-replicate num_fibers) in
    let test3 : (sum s'.processed == num_tasks) ≡ true = ground (arith, all) in
    rw (test1, test2, e, test3) refl
