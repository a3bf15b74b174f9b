-- ===== src/Examples/WorkStealing/Kept.antt =====
-- No task of examples/work_stealing.c is lost or done twice, in any order of the turns.
use c_coroutine.Base.{
  weigh, weigh-append, ℕ, ◌+◌, ◌≤◌, ◌≡◌, refl, ap, subst, List, [], ◌∷◌, ◌++◌, Option, none, some,
  arith, ltb, length, get_or, set, Bool-cases, inl, inr, ◌⊎◌, Option-cases,
}
use c_coroutine.Ring.{Ring, Holds, empty-Holds}
use c_coroutine.Examples.Crowd.{total, total-set, total-zero}
use c_coroutine.Examples.Turns.{turns, turns_keep}
use c_coroutine.Examples.WorkStealing.{
  total_tasks, local_cap, global_cap, Task, no_task, steal, WorkerState, copy, with_stolen,
  worker_fn, Pool, Who, dispatch, work, worker_turn, turn, started,
}
use c_coroutine.Examples.WorkStealing.Conservation.{
  dispatched, reached, load, gone, weigh-copy, steal-Holds, excess, IsKept, Kept, dispatcher-Kept,
}

-- The next task of the local queue.
drain-Kept :
    (n : ℕ) (w : WorkerState) (t : Task) (local : List Task) (p : Pool)
    → get_or p.workers n none ≡ some (record w { local = t ∷ local })
    → Kept p
    → Kept (worker_turn n (some (record w { local = t ∷ local })) p)
unfolding worker_fn
drain-Kept n w t local p e (held, h) =
    let v = some (record w { local = local; processed = w.processed + 1 }) in
    (
      held,
      record {
        holds = h.holds;
        weights = λ f. omega (arith, h.weights f, total-set (load f) p.workers n v e);
        count = omega (arith, h.count);
        bound = h.bound;
        over = elim h.over [
          | inl z ↦ inl (omega (arith, total-set gone p.workers n v e))
          | inr all ↦ inr (omega arith)
        ];
        fits = omega (arith, h.fits, total-set excess p.workers n v e);
      },
    )

length-copy : (tasks local : List Task) → length (copy tasks local) ≡ length tasks + length local
length-copy [] local = omega arith
length-copy (t ∷ tasks) local = omega (arith, length-copy tasks (t ∷ local))

-- A worker with an empty local queue becomes `v`, with the tasks that it has taken.
take-IsKept :
    (n : ℕ) (w : WorkerState) (v : Option WorkerState) (tasks others : List Task) (q : Ring Task)
    (p : Pool)
    → get_or p.workers n none ≡ some (record w { local = [] })
    → IsKept p (tasks ++ others)
    → Holds global_cap no_task q others
    → ((f : Task → ℕ) → load f v ≡ weigh f tasks)
    → ((gone v ≡ 0) ⊎ (total_tasks ≤ p.shared.tasks_completed))
    → excess v ≡ 0
    → IsKept
        (record p { workers = set p.workers n v; shared = record p.shared { global_queue = q } })
        others
take-IsKept n w v tasks others q p e h hq loads over fits = record {
  holds = hq;
  weights = λ f. omega (
    arith,
    h.weights f,
    total-set (load f) p.workers n v e,
    loads f,
    weigh-append f tasks others,
  );
  count = h.count;
  bound = h.bound;
  over = elim h.over [
    | inr all ↦ inr all
    | inl z ↦ elim over [
      | inl none_gone ↦ inl (omega (arith, total-set gone p.workers n v e))
      | inr all ↦ inr all
    ]
  ];
  fits = omega (arith, h.fits, total-set excess p.workers n v e);
}

stolen-Kept :
    (n : ℕ) (w : WorkerState) (tasks others : List Task) (q : Ring Task) (p : Pool)
    → get_or p.workers n none ≡ some (record w { local = [] })
    → IsKept p (tasks ++ others)
    → Holds global_cap no_task q others
    → length tasks ≤ local_cap
    → let r = with_stolen tasks (record w { local = [] }) (record p.shared { global_queue = q }) in
      IsKept (record p { workers = set p.workers n r.0; shared = r.1 }) others
stolen-Kept n w [] others q p e h hq l =
    elim (Bool-cases (ltb p.shared.tasks_completed total_tasks)) [
      | inl going ↦ rw going (
          take-IsKept n w (some (record w { local = [] })) [] others q p e h hq (λ f. refl)
            (inl refl) refl)
      | inr ended ↦
          rw ended (
            take-IsKept n w none [] others q p e h hq (λ f. refl) (inr (ground (arith, ended)))
              refl)
    ]
stolen-Kept n w (t ∷ tasks) others q p e h hq l =
    take-IsKept n w
      (some (record w { local = copy (t ∷ tasks) []; stolen = w.stolen + length (t ∷ tasks) }))
      (t ∷ tasks) others q p e h hq (λ f. omega (arith, weigh-copy f (t ∷ tasks) [])) (inl refl)
      (omega (arith, length-copy (t ∷ tasks) []))

worker-Kept :
    (n : ℕ) (w : WorkerState) (local : List Task) (p : Pool)
    → get_or p.workers n none ≡ some (record w { local = local })
    → Kept p
    → Kept (worker_turn n (some (record w { local = local })) p)
unfolding worker_fn
worker-Kept n w (t ∷ local) p e h = drain-Kept n w t local p e h
worker-Kept n w [] p e (held, h) =
    let (others, split, hq, l, _) = steal-Holds local_cap held h.holds in
    (
      others,
      stolen-Kept n w (steal local_cap p.shared.global_queue).0 others
          (steal local_cap p.shared.global_queue).1 p e (subst (IsKept p) split h) hq l,
    )

pub turn-Kept : (who : Who) (p : Pool) → Kept p → Kept (turn who p)
unfolding turn
turn-Kept dispatch p h = dispatcher-Kept p.dispatcher p h
turn-Kept (work n) p h = elim (Option-cases (get_or p.workers n none)) [
  | inl e ↦ rw e h
  | inr (w, e) ↦ rw e (worker-Kept n w w.local p e h)
]

pub started-Kept : Kept started
started-Kept = (
  [],
  record {
    holds = empty-Holds global_cap no_task (omega arith);
    weights = λ f. refl;
    count = refl;
    bound = omega arith;
    over = inl refl;
    fits = refl;
  },
)

pub kept : (schedule : List Who) → Kept (turns turn schedule started)
kept schedule = turns_keep turn Kept turn-Kept schedule started started-Kept

-- After any sequence of turns, whatever weight tasks have, those finished, those in the local
-- queues and those in the global queue together weigh as much as those dispatched, and the counter
-- of completed tasks is the number of those finished.
pub nothing_lost :
    (schedule : List Who) (f : Task → ℕ)
    → let p = turns turn schedule started in
      (held : List Task) × Holds global_cap no_task p.shared.global_queue held
      × (weigh f p.shared.finished + total (load f) p.workers + weigh f held
          ≡ weigh f (dispatched (reached p.dispatcher)))
      × (length p.shared.finished ≡ p.shared.tasks_completed)
nothing_lost schedule f = let (held, h) = kept schedule in (held, h.holds, h.weights f, h.count)

-- Every worker has returned, and the dispatcher.
abbrev pub AllReturned : Pool → Type 0
AllReturned p = (p.dispatcher ≡ none) × ((n : ℕ) → get_or p.workers n none ≡ none)

-- After any sequence of turns, the local queue of a worker that has not returned holds no more
-- tasks than its array.
pub local_bound :
    (schedule : List Who) (n : ℕ) (w : WorkerState)
    → get_or (turns turn schedule started).workers n none ≡ some w
    → length w.local ≤ local_cap
local_bound schedule n w e =
    let (held, h) = kept schedule in
    let z = total-zero excess (turns turn schedule started).workers n h.fits refl in
    omega (arith, ap excess e)
