-- ===== src/Examples/TaskGraph/Coroutines.antt =====
-- How many coroutines examples/task_graph.c creates: one for each task with a counter of zero.
use c_coroutine.Base.{
  ℕ, zero, suc, ◌+◌, ◌-◌, ◌≤◌, ◌≡◌, refl, ap, ◌∙◌, List, [], ◌∷◌, none, some, arith, true, false,
  has, get_or, set, length, length-append, length-set, ◌==◌, Bool-cases, Option-cases, inl, inr,
}
use c_coroutine.Examples.TaskGraph.{
  Task, no_task, task_graph_finalize, notify, spawn, Graph, task_work, task_coroutine, roots,
  started,
}
use c_coroutine.Examples.TaskGraph.Dependencies.{one_if}
use c_coroutine.Examples.TaskGraph.Finish.{length-notify}
use c_coroutine.Examples.TaskGraph.Started.{length-finalize}

-- The tasks whose counter is zero.
abbrev pub zeros : List Task → ℕ
zeros [] = 0
zeros (t ∷ tasks) = one_if (t.deps_remaining == 0) + zeros tasks

zeros_le : (tasks : List Task) → zeros tasks ≤ length tasks
zeros_le [] = omega arith
zeros_le (t ∷ tasks) = elim (Bool-cases (t.deps_remaining == 0)) [
  | inl e ↦ rw e (omega (arith, zeros_le tasks))
  | inr e ↦ rw e (omega (arith, zeros_le tasks))
]

zeros-notify :
    (self i : ℕ) (tasks : List Task)
    → length (notify self i tasks).1 + zeros tasks ≡ zeros (notify self i tasks).0
unfolding notify
zeros-notify self i [] = refl
zeros-notify self i (t ∷ tasks) =
    let rest = zeros-notify self (i + 1) tasks in
    elim (Bool-cases (has self t.dep_ids)) [
      | inr free ↦ rw (free, notify) (omega arith)
      | inl dep ↦ elim (Bool-cases (t.deps_remaining == 1)) [
        | inl one ↦
            let before : (t.deps_remaining == 0) ≡ false = ground (arith, one) in
            let after : (t.deps_remaining - 1 == 0) ≡ true = ground (arith, one) in
            rw (dep, one, notify, before, after) (omega arith)
        | inr more ↦
            let same : (t.deps_remaining - 1 == 0) ≡ (t.deps_remaining == 0) =
              ground (arith, more) in
            rw (dep, more, notify, same) (omega arith)
      ]
    ]

length-spawn : (ids : List ℕ) → length (spawn ids) ≡ length ids
length-spawn [] = refl
length-spawn (i ∷ ids) = ap suc (length-spawn ids)

zeros-roots :
    (i : ℕ) (tasks : List Task) → length (roots i tasks) ≡ zeros (task_graph_finalize tasks)
unfolding roots task_graph_finalize
zeros-roots i [] = refl
zeros-roots i (t ∷ tasks) = elim (Bool-cases (length t.dep_ids == 0)) [
  | inl root ↦ rw (root, roots) (omega (arith, zeros-roots (i + 1) tasks))
  | inr other ↦ rw (other, roots) (omega (arith, zeros-roots (i + 1) tasks))
]

pub record IsSized (n : ℕ) (g : Graph) : Type 0 where
  pub registry : length g.g_tasks ≡ n
  pub coroutines : length g.runs ≡ zeros g.g_tasks

pub started-IsSized : (tasks : List Task) → IsSized (length tasks) (started tasks)
unfolding started
started-IsSized tasks = record {
  registry = length-finalize tasks;
  coroutines = length-spawn (roots 0 tasks) ∙ zeros-roots 0 tasks;
}

work-IsSized : (n k id left : ℕ) (g : Graph) → IsSized n g → IsSized n (task_work k id left g)
work-IsSized n k id zero g h =
    let ids = (notify id 0 g.g_tasks).1 in
    record {
      registry = length-notify id 0 g.g_tasks ∙ h.registry;
      coroutines = omega (
        arith,
        length-append (set g.runs k none) (spawn ids),
        length-set g.runs k none,
        length-spawn ids,
        zeros-notify id 0 g.g_tasks,
        h.coroutines,
      );
    }
work-IsSized n k id (suc left) g h = record {
  registry = h.registry;
  coroutines = length-set g.runs k (some (record { id = id; left = some left })) ∙ h.coroutines;
}

pub turn-IsSized : (n k : ℕ) (g : Graph) → IsSized n g → IsSized n (task_coroutine k g)
unfolding task_coroutine
turn-IsSized n k g h = elim (Option-cases (get_or g.runs k none)) [
  | inl e ↦ rw e h
  | inr (r, e) ↦ elim (Option-cases r.left) [
    | inl fresh ↦ rw (e, fresh) (work-IsSized n k r.id (get_or g.g_tasks r.id no_task).work g h)
    | inr (left, on) ↦ rw (e, on) (work-IsSized n k r.id left g h)
  ]
]

-- No more coroutines than tasks.
pub length-runs : (n : ℕ) (g : Graph) → IsSized n g → length g.runs ≤ n
length-runs n g h = omega (arith, h.coroutines, zeros_le g.g_tasks, h.registry)
