-- ===== src/Examples/WorkStealing/Conservation.antt =====
-- No task of examples/work_stealing.c is lost or done twice, in any order of the turns.
use c_coroutine.Base.{
  ℕ, zero, suc, ◌+◌, ◌-◌, ◌≤◌, ◌<◌, ◌≡◌, refl, ap, ◌∙◌, List, [], ◌∷◌, ◌++◌, Option, none, some,
  arith, ltb, length, weigh, weigh-append, Bool-cases, inl, inr, ◌⊎◌,
}
use c_coroutine.Ring.{Ring, Holds, insert-cases, remove-cases}
use c_coroutine.Examples.Crowd.{total}
use c_coroutine.Examples.WorkStealing.{
  total_tasks, local_cap, global_cap, Task, no_task, tq_push, tq_pop, steal, WorkerState, copy,
  task, dispatcher_fn, Pool, dispatcher_turn,
}

-- The tasks that are dispatched first.
abbrev pub dispatched : ℕ → List Task
dispatched zero = []
dispatched (suc i) = task i ∷ dispatched i

abbrev pub reached : Option ℕ → ℕ
reached none = total_tasks
reached (some i) = i

-- Of a worker: the weight of its local queue, and one if it has returned.
abbrev pub load : (Task → ℕ) → Option WorkerState → ℕ
load f none = 0
load f (some w) = weigh f w.local

abbrev pub gone : Option WorkerState → ℕ
gone none = 1
gone (some w) = 0

pub weigh-copy :
    (f : Task → ℕ) (tasks local : List Task)
    → weigh f (copy tasks local) ≡ weigh f tasks + weigh f local
weigh-copy f [] local = omega arith
weigh-copy f (t ∷ tasks) local = omega (arith, weigh-copy f tasks (t ∷ local))

pub steal-Holds :
    (left : ℕ) {q : Ring Task} (tasks : List Task)
    → Holds global_cap no_task q tasks
    → (others : List Task) × (tasks ≡ (steal left q).0 ++ others)
      × Holds global_cap no_task (steal left q).1 others
      × (length (steal left q).0 ≤ left)
      × (left ≡ 0 ⊎ tasks ≡ [] ⊎ (0 < length (steal left q).0))
unfolding steal tq_pop
steal-Holds zero {q} tasks h = (tasks, refl, h, omega arith, inl refl)
steal-Holds (suc left) {q} tasks h = elim (remove-cases global_cap no_task tasks h) [
  | inl (e, nil) ↦ rw (e, steal) (tasks, refl, h, omega arith, inr (inl nil))
  | inr (x, xs, q', c, e, h') ↦
      let (others, split, h'', bound, _) = steal-Holds left xs h' in
      rw (e, steal) (others, c ∙ ap (λ ys. x ∷ ys) split, h'', omega arith, inr (inr (omega arith)))
]

-- By how much a local queue exceeds its array.
abbrev pub excess : Option WorkerState → ℕ
excess none = 0
excess (some w) = length w.local - local_cap

-- Whatever tasks are counted, those finished, those in the local queues and those in the global
-- queue are those that have been dispatched; a worker returns only when all are completed.
pub record IsKept (p : Pool) (held : List Task) : Type 0 where
  pub holds : Holds global_cap no_task p.shared.global_queue held
  pub weights :
      (f : Task → ℕ)
      → weigh f p.shared.finished + total (load f) p.workers + weigh f held
        ≡ weigh f (dispatched (reached p.dispatcher))
  pub count : length p.shared.finished ≡ p.shared.tasks_completed
  pub bound : reached p.dispatcher ≤ total_tasks
  pub over : (total gone p.workers ≡ 0) ⊎ (total_tasks ≤ p.shared.tasks_completed)
  pub fits : total excess p.workers ≡ 0

abbrev pub Kept : Pool → Type 0
Kept p = (held : List Task) × IsKept p held

dispatched_next :
    (f : Task → ℕ) (i : ℕ) → weigh f (dispatched (i + 1)) ≡ f (task i) + weigh f (dispatched i)
dispatched_next f i =
    let next : i + 1 ≡ suc i = omega arith in ap (λ j. weigh f (dispatched j)) next

pub dispatcher-Kept :
    (o : Option ℕ) (p : Pool)
    → Kept (record p { dispatcher = o })
    → Kept (dispatcher_turn o (record p { dispatcher = o }))
unfolding dispatcher_fn tq_push
dispatcher-Kept none p h = h
dispatcher-Kept (some i) p (held, h) = elim (Bool-cases (ltb i total_tasks)) [
  | inr no_more ↦
      let e : i ≡ total_tasks = ground (arith, no_more, h.bound) in
      rw (no_more, dispatcher_fn)
        (
          held,
          record {
            holds = h.holds;
            weights = λ f. h.weights f ∙ ap (λ j. weigh f (dispatched j)) e;
            count = h.count;
            bound = omega arith;
            over = h.over;
            fits = h.fits;
          },
        )
  | inl more ↦ elim (insert-cases global_cap no_task (task i) h.holds) [
    | inl (e, _) ↦ rw (more, e, dispatcher_fn) (held, h)
    | inr (q, e, h') ↦
        rw (more, e, dispatcher_fn)
          (
            held ++ (task i ∷ []),
            record {
              holds = h';
              weights = λ f.
                  omega
                    (arith, h.weights f, weigh-append f held (task i ∷ []), dispatched_next f i);
              count = h.count;
              bound = ground (arith, more);
              over = h.over;
              fits = h.fits;
            },
          )
  ]
]
