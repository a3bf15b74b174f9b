-- ===== src/Examples/TaskGraph.antt =====
-- examples/task_graph.c: tasks that are created as coroutines when all that they depend on are
-- finished. A task is named by its index in `g_tasks`; `work` is how often its function yields.
-- What task_register and task_add_dep do at the end of an array is not defined.
pub mod Dependencies
pub mod Finish
pub mod Started
pub mod Measure
pub mod Coroutines
pub mod Completion
use c_coroutine.Base.{
  ℕ, zero, suc, ◌+◌, ◌-◌, List, [], ◌∷◌, ◌++◌, Option, none, some, has, get_or, set, length, ◌==◌,
  if◌then◌else◌, ltb, ◌&&◌,
}

pub record Task : Type 0 where
  pub dep_ids : List ℕ
  pub deps_remaining : ℕ
  pub work : ℕ

abbrev pub no_task : Task
no_task = record { dep_ids = []; deps_remaining = 0; work = 0 }

abbrev pub max_tasks : ℕ
max_tasks = 16

abbrev pub max_deps : ℕ
max_deps = 8

-- The tasks with the new one behind them; its id is their number before. `none` stands for a write
-- behind the array `g_tasks`.
unfoldable pub task_register : ℕ → List Task → Option (ℕ × List Task)
task_register work tasks =
    if ltb (length tasks) max_tasks
    then some
        (length tasks, tasks ++ (record { dep_ids = []; deps_remaining = 0; work = work } ∷ []))
    else none

-- `none` stands for a write behind the array `dep_ids`, or behind `g_tasks`.
unfoldable pub task_add_dep : (task_id dep_id : ℕ) → List Task → Option (List Task)
task_add_dep task_id dep_id tasks =
    let t = get_or tasks task_id no_task in
    if ltb task_id (length tasks) && ltb (length t.dep_ids) max_deps
    then some (set tasks task_id (record t { dep_ids = t.dep_ids ++ (dep_id ∷ []) }))
    else none

unfoldable pub task_graph_finalize : List Task → List Task
task_graph_finalize [] = []
task_graph_finalize (t ∷ tasks) =
    record t { deps_remaining = length t.dep_ids } ∷ task_graph_finalize tasks

-- The inner loop breaks at the first dependency on `self`.
abbrev pub notified : ℕ → Task → Task
notified self t =
    if has self t.dep_ids then record t { deps_remaining = t.deps_remaining - 1 } else t

-- The loop over the tasks from `i` on: the tasks afterwards, and those that are spawned, in order.
unfoldable pub notify : (self i : ℕ) → List Task → List Task × List ℕ
notify self i [] = ([], [])
notify self i (t ∷ tasks) =
    let rest = notify self (i + 1) tasks in
    (
      notified self t ∷ rest.0,
      if has self t.dep_ids then (if t.deps_remaining == 1 then i ∷ rest.1 else rest.1) else rest.1,
    )

-- A coroutine of a task, with the yields left to its work function; `none` before its first turn.
pub record Run : Type 0 where
  pub id : ℕ
  pub left : Option ℕ

abbrev pub spawn : List ℕ → List (Option Run)
spawn [] = []
spawn (id ∷ ids) = some (record { id = id; left = none }) ∷ spawn ids

-- The registry, the coroutines (`none` once they have returned), and the tasks that are finished,
-- the last first.
pub record Graph : Type 0 where
  pub g_tasks : List Task
  pub runs : List (Option Run)
  pub finished : List ℕ

-- The coroutine at place `n`, with so many yields left to its work.
abbrev pub task_work : (n id left : ℕ) → Graph → Graph
task_work n id zero g =
    let r = notify id 0 g.g_tasks in
    record { g_tasks = r.0; runs = set g.runs n none ++ spawn r.1; finished = id ∷ g.finished }
task_work n id (suc left) g = record g {
  runs = set g.runs n (some (record { id = id; left = some left }));
}

abbrev pub task_turn : ℕ → Option Run → Graph → Graph
task_turn n none g = g
task_turn n (some r) g = elim r.left [
  | none ↦ task_work n r.id (get_or g.g_tasks r.id no_task).work g
  | some left ↦ task_work n r.id left g
]

unfoldable pub task_coroutine : ℕ → Graph → Graph
task_coroutine n g = task_turn n (get_or g.runs n none) g

-- The tasks from `i` on that depend on nothing, which `main` creates.
unfoldable pub roots : (i : ℕ) → List Task → List ℕ
roots i [] = []
roots i (t ∷ tasks) =
    let rest = roots (i + 1) tasks in if length t.dep_ids == 0 then i ∷ rest else rest

unfoldable pub started : List Task → Graph
started tasks = record {
  g_tasks = task_graph_finalize tasks;
  runs = spawn (roots 0 tasks);
  finished = [];
}

-- The work functions: how often each yields.
abbrev pub work_fetch_data : ℕ
work_fetch_data = 3

abbrev pub work_parse_json : ℕ
work_parse_json = 2

abbrev pub work_fetch_config : ℕ
work_fetch_config = 1

abbrev pub work_validate : ℕ
work_validate = 2

abbrev pub work_enrich : ℕ
work_enrich = 3

abbrev pub work_write_output : ℕ
work_write_output = 2

abbrev pub register_all : List ℕ → List Task → Option (List Task)
register_all [] tasks = some tasks
register_all (work ∷ works) tasks = elim (task_register work tasks) [
  | none ↦ none
  | some (id, more) ↦ register_all works more
]

abbrev pub add_deps : List (ℕ × ℕ) → List Task → Option (List Task)
add_deps [] tasks = some tasks
add_deps ((task_id, dep_id) ∷ deps) tasks = elim (task_add_dep task_id dep_id tasks) [
  | none ↦ none
  | some more ↦ add_deps deps more
]

-- The graph that `main` builds; its tasks have the numbers 0 to 5.
unfoldable pub main_tasks : Option (List Task)
main_tasks =
    elim (register_all
      (work_fetch_data ∷ work_parse_json ∷ work_fetch_config ∷ work_validate ∷ work_enrich
        ∷ work_write_output ∷ [])
      []) [
        | none ↦ none
        | some tasks ↦ add_deps ((3, 0) ∷ (3, 1) ∷ (4, 3) ∷ (4, 2) ∷ (5, 4) ∷ []) tasks
      ]
