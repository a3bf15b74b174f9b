-- ===== src/Examples/TaskGraph/Completion.antt =====
-- All tasks of examples/task_graph.c are finished in the end, on a graph without cycles.
use c_coroutine.Base.{
  ℕ, zero, suc, ◌+◌, ◌*◌, ◌≤◌, ◌<◌, ◌≡◌, refl, sym, ap, subst, ◌∙◌, List, [], ◌∷◌, none, some,
  arith, true, false, has, Distinct, get_or, length, ◌==◌, ==_self, ltb, ℕ-cases, Bool-cases,
  Option-cases, inl, inr, ◌⊎◌, ◌||◌, ltb→lt,
}
use c_coroutine.Examples.Crowd.{total, total-set, total-nowhere, get_or-inside}
use c_coroutine.Examples.Turns.{rounds, AllFair, rounds_done}
use c_coroutine.Examples.TaskGraph.{
  Task, no_task, Run, Graph, task_work, task_coroutine, roots, started,
}
use c_coroutine.Examples.TaskGraph.Dependencies.{open_deps, one_if, runs_of, times}
use c_coroutine.Examples.TaskGraph.Started.{
  IsRunning, turn-IsRunning, started-IsRunning, finalize-at, roots-at,
}
use c_coroutine.Examples.TaskGraph.Coroutines.{IsSized, started-IsSized, turn-IsSized, length-runs}
use c_coroutine.Examples.TaskGraph.Measure.{
  below, below_le, below_lt, rest_of, rest, total-spawn, work-rest,
}

abbrev IsGoing : List Task → Graph → Type 0
IsGoing tasks g = IsRunning tasks g × IsSized (length tasks) g

-- The task of a coroutine is in the registry.
run-inside :
    (tasks : List Task) (g : Graph) (n : ℕ) (r : Run)
    → get_or g.runs n none ≡ some r
    → IsGoing tasks g
    → r.id < length tasks
run-inside tasks g n r e ((h, _), sized) = elim (Bool-cases (ltb r.id (length g.g_tasks))) [
  | inl inside ↦ omega (arith, ltb→lt r.id (length g.g_tasks) inside, sized.registry)
  | inr outside ↦
      let z = h.known r.id (ground (arith, outside)) in
      let self : one_if (r.id == r.id) ≡ 1 = ap one_if (==_self r.id) in
      absurd (omega (arith, total-set (runs_of r.id) g.runs n none e))
]

-- The turns of a coroutine whose next turn leaves `left` yields.
rest_of-now :
    (r : Run) (works : ℕ → ℕ) (left : ℕ)
    → (elim r.left [ none ↦ works r.id + 1 | some l ↦ l + 1 ]) ≡ left + 1
    → (t : ℕ) → rest_of t (works t) (some r) ≡ one_if (r.id == t) * (left + 1)
rest_of-now r works left e t = elim (ℕ-cases r.id t) [
  | inr ne ↦ let apart : (r.id == t) ≡ false = ground arith in rw apart (omega arith)
  | inl eq ↦
      let one : left + 1 ≡ 1 * (left + 1) = omega arith in
      subst (λ m. rest_of m (works m) (some r) ≡ one_if (r.id == m) * (left + 1)) eq
        (rw (==_self r.id) (e ∙ one))
]

abbrev work_left : List Task → Graph → ℕ
work_left tasks g = below (length tasks) (rest g)

turn-rest :
    (tasks : List Task) (n : ℕ) (g : Graph)
    → IsGoing tasks g
    → (get_or g.runs n none ≡ none) × (task_coroutine n g ≡ g)
      ⊎ (work_left tasks (task_coroutine n g) < work_left tasks g)
unfolding task_coroutine
turn-rest tasks n g h = elim (Option-cases (get_or g.runs n none)) [
  | inl e ↦ inl (e, rw e refl)
  | inr (r, e) ↦
      let works : ℕ → ℕ = λ t. (get_or g.g_tasks t no_task).work in
      let inside = run-inside tasks g n r e h in
      let lower : (left : ℕ)
          → (elim r.left [ none ↦ works r.id + 1 | some l ↦ l + 1 ]) ≡ left + 1
          → work_left tasks (task_work n r.id left g) < work_left tasks g =
        λ left e'.
          let (kept, less) = work-rest g n r left e (rest_of-now r works left e') in
          below_lt (length tasks) (rest (task_work n r.id left g)) (rest g) r.id kept inside less in
      elim (Option-cases r.left) [
        | inl fresh ↦ inr (
            rw (e, fresh)
              (lower (works r.id)
                (ap (λ o. elim o [ none ↦ works r.id + 1 | some l ↦ l + 1 ]) fresh)))
        | inr (left, on) ↦ inr (
            rw (e, on)
              (lower left (ap (λ o. elim o [ none ↦ works r.id + 1 | some l ↦ l + 1 ]) on)))
      ]
]

-- With all dependencies finished none is open.
open_deps-finished :
    (finished deps : List ℕ)
    → ((d : ℕ) → has d deps ≡ true → has d finished ≡ true)
    → open_deps finished deps ≡ 0
open_deps-finished finished [] h = refl
open_deps-finished finished (x ∷ deps) h =
    let here : has x finished ≡ true = h x (ap (λ b. b || has x deps) (==_self x)) in
    rw here (omega (arith, open_deps-finished finished deps (λ d m. h d (ground (arith, m)))))

-- Every dependency has a smaller rank than the task, and is a task of the registry.
abbrev pub IsAcyclic : (ℕ → ℕ) → List Task → Type 0
IsAcyclic rank tasks =
    (t d : ℕ)
    → has d (get_or tasks t no_task).dep_ids ≡ true
    → (rank d < rank t) × (d < length tasks)

abbrev pub AllFinished : List Task → Graph → Type 0
AllFinished tasks g = (t : ℕ) → t < length tasks → has t g.finished ≡ true

-- Without a coroutine every task up to some rank is finished.
finished-below :
    (tasks : List Task) (rank : ℕ → ℕ) (g : Graph)
    → IsAcyclic rank tasks
    → IsGoing tasks g
    → ((n : ℕ) → get_or g.runs n none ≡ none)
    → (k t : ℕ) → rank t < k
    → t < length tasks
    → has t g.finished ≡ true
finished-below tasks rank g acyclic h idle zero t low inside = absurd (omega arith)
finished-below tasks rank g acyclic h idle (suc k) t low inside =
    let (counting, same) = h.0 in
    let deps : (d : ℕ)
        → has d (get_or g.g_tasks t no_task).dep_ids ≡ true
        → has d g.finished ≡ true =
      λ d m.
        let (lower, there) = acyclic t d (ap (has d) (sym (same t)) ∙ m) in
        finished-below tasks rank g acyclic h idle k d (omega arith) there in
    let none_open = open_deps-finished g.finished (get_or g.g_tasks t no_task).dep_ids deps in
    let zero_left : (get_or g.g_tasks t no_task).deps_remaining ≡ 0 =
      counting.counts t ∙ none_open in
    let c = counting.created t (omega (arith, h.1.registry)) in
    let no_runs : total (runs_of t) g.runs ≡ 0 =
      total-nowhere (runs_of t) g.runs (λ n. ap (runs_of t) (idle n)) in
    let ready : one_if ((get_or g.g_tasks t no_task).deps_remaining == 0) ≡ 1 =
      ap (λ m. one_if (m == 0)) zero_left in
    elim (Bool-cases (has t g.finished)) [
      | inl finished ↦ finished
      | inr not_yet ↦
          let zero_if : one_if (has t g.finished) ≡ 0 = ap one_if not_yet in absurd (omega arith)
    ]

all-stuck :
    (tasks : List Task) (rank : ℕ → ℕ) (g : Graph)
    → IsAcyclic rank tasks
    → IsGoing tasks g
    → ((n : ℕ) → task_coroutine n g ≡ g)
    → AllFinished tasks g
all-stuck tasks rank g acyclic h same t inside =
    finished-below tasks rank g acyclic h
      (λ n. elim (turn-rest tasks n g h) [
        | inl (none_here, _) ↦ none_here
        | inr less ↦ absurd (omega (arith, ap (work_left tasks) (same n)))
      ])
      (rank t + 1) t (omega arith) inside

turn-absent :
    (tasks : List Task) (n : ℕ) (g : Graph)
    → IsGoing tasks g
    → (n < length tasks) ⊎ (task_coroutine n g ≡ g)
unfolding task_coroutine
turn-absent tasks n g h = elim (Option-cases (get_or g.runs n none)) [
  | inl e ↦ inr (rw e refl)
  | inr (r, e) ↦ inl (omega (arith, get_or-inside g.runs n e, length-runs (length tasks) g h.1))
]

-- The turns of all tasks.
abbrev pub turns_of : List Task → ℕ
turns_of tasks = below (length tasks) (λ t. (get_or tasks t no_task).work + 1)

started-rest :
    (tasks : List Task) (t : ℕ) → rest (started tasks) t ≤ (get_or tasks t no_task).work + 1
unfolding started
started-rest tasks t =
    let task = get_or tasks t no_task in
    let place : t ≡ 0 + t = omega arith in
    let here = ap (λ m. times m (roots 0 tasks)) place ∙ roots-at 0 t tasks in
    let spawns = total-spawn t task.work (roots 0 tasks) in
    rw (finalize-at tasks t, spawns, here)
      (elim (Bool-cases (length task.dep_ids == 0)) [
        | inr waits ↦ elim (Bool-cases (ltb t (length tasks))) [
          | inl inside ↦ rw (waits, inside) (omega arith)
          | inr outside ↦ rw (waits, outside) (omega arith)
        ]
        | inl root ↦ elim (Bool-cases (ltb t (length tasks))) [
          | inl inside ↦ rw (root, inside) (omega arith)
          | inr outside ↦ rw (root, outside) (omega arith)
        ]
      ])

-- On a graph in which no task lists a dependency twice and some rank falls from every task to each
-- that it depends on, all being tasks of the graph, more rounds than the work of all tasks has
-- turns, in which every place has a turn, in any order, lead to a state in which every task is
-- finished.
pub all_tasks_finish :
    (tasks : List Task) (rank : ℕ → ℕ)
    → ((t : ℕ) → Distinct (get_or tasks t no_task).dep_ids)
    → IsAcyclic rank tasks
    → (schedule : List (List ℕ)) → AllFair (λ n. n < length tasks) schedule
    → turns_of tasks < length schedule
    → AllFinished tasks (rounds task_coroutine schedule (started tasks))
all_tasks_finish tasks rank distinct acyclic schedule fair enough =
    rounds_done task_coroutine (λ n. n < length tasks) (IsGoing tasks) (AllFinished tasks)
      (record {
        work = work_left tasks;
        keep =
            λ n g (h, sized). (turn-IsRunning tasks n g h, turn-IsSized (length tasks) n g sized);
        moves = λ n g h. elim (turn-rest tasks n g h) [
          | inl (_, same) ↦ inl same
          | inr less ↦ inr less
        ];
        stuck = λ g h same. all-stuck tasks rank g acyclic h same;
        absent = turn-absent tasks;
      })
      schedule (started tasks) fair
      (omega (
        arith,
        below_le (length tasks) (rest (started tasks)) (λ t. (get_or tasks t no_task).work + 1)
            (λ t _. started-rest tasks t),
      ))
      (started-IsRunning tasks distinct, started-IsSized tasks)
