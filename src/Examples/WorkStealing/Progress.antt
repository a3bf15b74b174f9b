-- ===== src/Examples/WorkStealing/Progress.antt =====
-- What a turn in examples/work_stealing.c changes, and when it changes nothing.
use c_coroutine.Base.{
  weigh, weigh-one, ℕ, zero, suc, ◌+◌, ◌*◌, ◌-◌, ◌<◌, ◌≡◌, refl, ap, ◌∙◌, List, [], ◌∷◌, Option,
  none, some, arith, ltb, length, get_or, set, length-append, Bool-cases, inl, inr, ◌⊎◌,
  Option-cases,
}
use c_coroutine.Ring.{Ring, Holds, insert-cases, remove-cases, length-Holds}
use c_coroutine.Examples.Crowd.{total, total-set, set_same}
use c_coroutine.Examples.WorkStealing.{
  num_workers, total_tasks, local_cap, global_cap, Task, no_task, tq_push, tq_pop, steal,
  WorkerState, copy, with_stolen, worker_fn, task, dispatcher_fn, Pool, Who, dispatch, work,
  dispatcher_turn, worker_turn, turn,
}
use c_coroutine.Examples.WorkStealing.Conservation.{
  weigh-copy, dispatched, load, gone, steal-Holds, Kept,
}

abbrev pub one : Task → ℕ
one t = 1

abbrev left : Option ℕ → ℕ
left none = 0
left (some i) = total_tasks + 1 - i

abbrev pub running : Option WorkerState → ℕ
running none = 0
running (some w) = 1

-- The turns that are left, those in which a coroutine only waits not counted.
abbrev pub measure : Pool → ℕ
measure p =
    3 * left p.dispatcher
    + 2 * p.shared.global_queue.size
    + total (load one) p.workers
    + total running p.workers

steal-empty : (n : ℕ) {q : Ring Task} → Holds global_cap no_task q [] → steal n q ≡ ([], q)
unfolding steal tq_pop
steal-empty zero h = refl
steal-empty (suc n) h = elim (remove-cases global_cap no_task [] h) [
  | inl (e, _) ↦ rw (e, steal) refl
  | inr (x, xs, q', c, _, _) ↦ ground (arith, ap length c)
]

dispatcher-moves :
    (o : Option ℕ) (p : Pool)
    → Kept (record p { dispatcher = o })
    → ((o ≡ none) ⊎ (p.shared.global_queue.size ≡ global_cap))
        × (dispatcher_turn o (record p { dispatcher = o }) ≡ record p { dispatcher = o })
      ⊎ (measure (dispatcher_turn o (record p { dispatcher = o }))
          < measure (record p { dispatcher = o }))
unfolding dispatcher_fn tq_push
dispatcher-moves none p h = inl (inl refl, refl)
dispatcher-moves (some i) p (held, h) = elim (Bool-cases (ltb i total_tasks)) [
  | inr no_more ↦ inr (rw (no_more, dispatcher_fn) (omega (arith, h.bound)))
  | inl more ↦
      let n = length-Holds global_cap no_task h.holds in
      elim (insert-cases global_cap no_task (task i) h.holds) [
        | inl (e, full) ↦ inl (inr (omega arith), rw (more, e, dispatcher_fn) refl)
        | inr (q, e, h') ↦
            let n' = length-Holds global_cap no_task h' in
            inr (
              rw (more, e, dispatcher_fn)
                (ground (arith, more, n, n', length-append held (task i ∷ []))))
      ]
]

-- What a worker that a turn does not change is doing.
abbrev Waits : ℕ → Pool → Type 0
Waits n p =
    (get_or p.workers n none ≡ none)
    ⊎ (load one (get_or p.workers n none) ≡ 0)
      × (p.shared.global_queue.size ≡ 0)
      × (p.shared.tasks_completed < total_tasks)

taken-moves :
    (n : ℕ) (w : WorkerState) (tasks : List Task) (q : Ring Task) (p : Pool)
    → get_or p.workers n none ≡ some (record w { local = [] })
    → 0 < length tasks
    → p.shared.global_queue.size ≡ length tasks + q.size
    → let r = with_stolen tasks (record w { local = [] }) (record p.shared { global_queue = q }) in
      measure (record p { workers = set p.workers n r.0; shared = r.1 }) < measure p
taken-moves n w [] q p e some_taken size = absurd (omega arith)
taken-moves n w (t ∷ tasks) q p e some_taken size =
    let v =
      some (record w { local = copy (t ∷ tasks) []; stolen = w.stolen + length (t ∷ tasks) }) in
    omega (
      arith,
      total-set (load one) p.workers n v e,
      total-set running p.workers n v e,
      weigh-copy one (t ∷ tasks) [],
      weigh-one (t ∷ tasks),
    )

stolen-moves :
    (n : ℕ) (w : WorkerState) (p : Pool)
    → get_or p.workers n none ≡ some (record w { local = [] })
    → Kept p
    → (p.shared.global_queue.size ≡ 0)
        × (p.shared.tasks_completed < total_tasks)
        × (worker_turn n (some (record w { local = [] })) p ≡ p)
      ⊎ (measure (worker_turn n (some (record w { local = [] })) p) < measure p)
unfolding worker_fn
stolen-moves n w p e ([], h) =
    let z : 0 ≡ p.shared.global_queue.size = length-Holds global_cap no_task h.holds in
    elim (Bool-cases (ltb p.shared.tasks_completed total_tasks)) [
      | inl going ↦ inl (
        omega arith,
        ground (arith, going),
        rw (steal-empty local_cap h.holds, going)
            (ap (λ os. record p { workers = os }) (set_same p.workers n e)),
      )
      | inr ended ↦ inr (
          rw (steal-empty local_cap h.holds, ended)
            (omega (
              arith,
              total-set (load one) p.workers n none e,
              total-set running p.workers n none e,
            )))
    ]
stolen-moves n w p e (x ∷ held, h) =
    let (others, split, hq, _, some_taken) = steal-Holds local_cap (x ∷ held) h.holds in
    let size = length-Holds global_cap no_task h.holds in
    let size' = length-Holds global_cap no_task hq in
    let parts = ap length split ∙ length-append (steal local_cap p.shared.global_queue).0 others in
    inr (
      taken-moves n w (steal local_cap p.shared.global_queue).0
        (steal local_cap p.shared.global_queue).1 p e
        (elim some_taken [
          | inl none_allowed ↦ absurd (omega arith)
          | inr (inl empty) ↦ absurd (omega (arith, ap length empty))
          | inr (inr taken) ↦ taken
        ])
        (omega arith))

worker-moves :
    (n : ℕ) (w : WorkerState) (local : List Task) (p : Pool)
    → get_or p.workers n none ≡ some (record w { local = local })
    → Kept p
    → (weigh one local ≡ 0)
        × (p.shared.global_queue.size ≡ 0)
        × (p.shared.tasks_completed < total_tasks)
        × (worker_turn n (some (record w { local = local })) p ≡ p)
      ⊎ (measure (worker_turn n (some (record w { local = local })) p) < measure p)
unfolding worker_fn
worker-moves n w (t ∷ local) p e h =
    let v = some (record w { local = local; processed = w.processed + 1 }) in
    inr (omega (arith, total-set (load one) p.workers n v e, total-set running p.workers n v e))
worker-moves n w [] p e h = elim (stolen-moves n w p e h) [
  | inl (z, going, same) ↦ inl (refl, z, going, same)
  | inr less ↦ inr less
]

abbrev pub Idles : Who → Pool → Type 0
Idles dispatch p = (p.dispatcher ≡ none) ⊎ (p.shared.global_queue.size ≡ global_cap)
Idles (work n) p = Waits n p

pub moves :
    (who : Who) (p : Pool)
    → Kept p
    → Idles who p × (turn who p ≡ p) ⊎ (measure (turn who p) < measure p)
unfolding turn
moves dispatch p h = dispatcher-moves p.dispatcher p h
moves (work n) p h = elim (Option-cases (get_or p.workers n none)) [
  | inl e ↦ rw e (inl (inl refl, refl))
  | inr (w, e) ↦ rw e (elim (worker-moves n w w.local p e h) [
    | inl (z, size, going, same) ↦ inl (inr (z, size, going), same)
    | inr less ↦ inr less
  ])
]

pub weigh-empty : (f : Task → ℕ) (tasks : List Task) → length tasks ≡ 0 → weigh f tasks ≡ 0
weigh-empty f [] h = refl
weigh-empty f (t ∷ tasks) h = absurd (omega arith)

pub length-dispatched : (i : ℕ) → weigh one (dispatched i) ≡ i
length-dispatched zero = refl
length-dispatched (suc i) = omega (arith, length-dispatched i)

pub gone-running : (os : List (Option WorkerState)) → total gone os + total running os ≡ length os
gone-running [] = refl
gone-running (none ∷ os) = omega (arith, gone-running os)
gone-running (some w ∷ os) = omega (arith, gone-running os)

pub none-running : (o : Option WorkerState) → running o ≡ 0 → o ≡ none
none-running none h = refl
none-running (some w) h = absurd (omega arith)

abbrev pub IsGoing : Pool → Type 0
IsGoing p = Kept p × (length p.workers ≡ num_workers)
