-- ===== src/Examples/WorkStealing/Finish.antt =====
-- The pool of examples/work_stealing.c completes every task, and all its coroutines return.
use c_coroutine.Base.{
  weigh, weigh-one, ℕ, ◌+◌, ◌*◌, ◌≤◌, ◌<◌, ◌≡◌, refl, ap, ◌∙◌, List, none, arith, ltb, length,
  get_or, Bool-cases, inl, inr, ◌⊎◌, length-set, Option-cases,
}
use c_coroutine.Ring.{length-Holds}
use c_coroutine.Examples.Crowd.{total, total-zero, total-nowhere, get_or-outside}
use c_coroutine.Examples.Turns.{rounds, AllFair, rounds_done}
use c_coroutine.Examples.WorkStealing.{
  num_workers, total_tasks, global_cap, Task, no_task, worker_fn, Pool, Who, dispatch, work, turn,
  started,
}
use c_coroutine.Examples.WorkStealing.Conservation.{dispatched, reached, load, Kept}
use c_coroutine.Examples.WorkStealing.Kept.{turn-Kept, started-Kept, AllReturned}
use c_coroutine.Examples.WorkStealing.Progress.{
  one, running, measure, Idles, moves, weigh-empty, length-dispatched, gone-running, none-running,
  IsGoing,
}

-- The dispatcher, and the workers with a place in the array.
abbrev pub Here : Who → Type 0
Here dispatch = Unit {0}
Here (work n) = n < num_workers

length-turn : (who : Who) (p : Pool) → length (turn who p).workers ≡ length p.workers
unfolding turn
length-turn dispatch p = elim (Option-cases p.dispatcher) [
  | inl e ↦ rw e refl
  | inr (i, e) ↦ rw e refl
]
length-turn (work n) p = elim (Option-cases (get_or p.workers n none)) [
  | inl e ↦ rw e refl
  | inr (w, e) ↦ rw e (length-set p.workers n (worker_fn w p.shared).0)
]

absent : (who : Who) (p : Pool) → IsGoing p → Here who ⊎ (turn who p ≡ p)
unfolding turn
absent dispatch p h = inl tt
absent (work n) p (_, l) = elim (Bool-cases (ltb n num_workers)) [
  | inl inside ↦ inl (ground (arith, inside))
  | inr outside ↦ let e = get_or-outside p.workers n (ground (arith, outside)) in inr (rw e refl)
]

-- No worker waits for tasks when no turn changes anything.
none_running : (p : Pool) → Kept p → ((who : Who) → Idles who p) → total running p.workers ≡ 0
none_running p (held, h) idles =
    let size = length-Holds global_cap no_task h.holds in
    total-nowhere running p.workers (λ n. elim (idles (work n)) [
      | inl e ↦ ap running e
      | inr (_, z, going) ↦ elim (idles dispatch) [
        | inr full ↦ absurd (omega arith)
        | inl over ↦
            let loads : total (load one) p.workers ≡ 0 =
              total-nowhere (load one) p.workers
                (λ m. elim (idles (work m)) [ inl e ↦ ap (load one) e | inr (l, _, _) ↦ l ]) in
            absurd (
              omega (
                arith,
                h.weights one,
                weigh-one p.shared.finished,
                weigh-one held,
                h.count,
                length-dispatched (reached p.dispatcher),
                ap reached over,
              ))
      ]
    ])

-- All coroutines have returned, and each task is completed once, whatever is counted.
abbrev pub AllCompleted : Pool → Type 0
AllCompleted p =
    AllReturned p
    × (p.shared.tasks_completed ≡ total_tasks)
    × ((f : Task → ℕ) → weigh f p.shared.finished ≡ weigh f (dispatched total_tasks))

all-stuck : (p : Pool) → IsGoing p → ((who : Who) → turn who p ≡ p) → AllCompleted p
all-stuck p ((held, h), l) same =
    let idles : (who : Who) → Idles who p = λ who. elim (moves who p (held, h)) [
      | inl (w, _) ↦ w
      | inr less ↦ absurd (omega (arith, ap measure (same who)))
    ] in
    let z = none_running p (held, h) idles in
    let returned : (n : ℕ) → get_or p.workers n none ≡ none =
      λ n. none-running (get_or p.workers n none) (total-zero running p.workers n z refl) in
    let loads : (f : Task → ℕ) → total (load f) p.workers ≡ 0 =
      λ f. total-nowhere (load f) p.workers (λ n. ap (load f) (returned n)) in
    let all : total_tasks ≤ p.shared.tasks_completed = elim h.over [
      | inl nobody ↦ absurd (omega (arith, gone-running p.workers))
      | inr all ↦ all
    ] in
    let size = length-Holds global_cap no_task h.holds in
    let empty : length held ≡ 0 = omega (
      arith,
      h.weights one,
      weigh-one p.shared.finished,
      weigh-one held,
      h.count,
      length-dispatched (reached p.dispatcher),
      h.bound,
      loads one,
    ) in
    let over : p.dispatcher ≡ none = elim (idles dispatch) [
      | inl over ↦ over
      | inr full ↦ absurd (omega arith)
    ] in
    let none_held : (f : Task → ℕ) → weigh f held ≡ 0 = λ f. weigh-empty f held empty in
    let sums : (f : Task → ℕ) → weigh f p.shared.finished ≡ weigh f (dispatched total_tasks) = λ f.
      omega (
        arith,
        h.weights f,
        loads f,
        none_held f,
        ap (λ o. weigh f (dispatched (reached o))) over,
      ) in
    (
      (over, returned),
      omega (arith, sums one, weigh-one p.shared.finished, h.count, length-dispatched total_tasks),
      sums,
    )

-- With at least 68 rounds in which the dispatcher and each of the four workers have a turn, in any
-- order, all five return, twenty tasks are completed, and whatever weight tasks have, those
-- finished weigh as much as the twenty tasks that the dispatcher makes.
pub all_tasks_completed :
    (schedule : List (List Who))
    → AllFair Here schedule
    → 3 * (total_tasks + 1) + num_workers < length schedule
    → AllCompleted (rounds turn schedule started)
all_tasks_completed schedule fair enough =
    rounds_done turn Here IsGoing AllCompleted
      (record {
        work = measure;
        keep = λ who p (h, l). (turn-Kept who p h, length-turn who p ∙ l);
        moves =
            λ who p (h, _). elim (moves who p h) [ inl (_, same) ↦ inl same | inr less ↦ inr less ];
        stuck = all-stuck;
        absent = absent;
      })
      schedule started fair enough (started-Kept, refl)
