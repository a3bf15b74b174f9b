-- ===== src/Examples/Tests/Graph.antt =====
-- The theorem on the task graph at the graph of the example.
use c_coroutine.Base.{
  arith, replicate, upto, ℕ, zero, suc, ◌≡◌, refl, List, [], ◌∷◌, none, some, true, has, Distinct,
  get_or,
}
use c_coroutine.Examples.Turns.{turns, rounds, AllFair-replicate, upto-IsFair}
use c_coroutine.Examples.TaskGraph.{
  Task, no_task, task_register, task_add_dep, main_tasks, work_validate, register_all, add_deps,
  Run, task_coroutine, roots, started, notify, task_graph_finalize,
}
use c_coroutine.Examples.TaskGraph.Started.{no_early_start}
use c_coroutine.Examples.TaskGraph.Completion.{IsAcyclic, AllFinished, all_tasks_finish}

abbrev task : List ℕ → ℕ → Task
task dep_ids work = record { dep_ids = dep_ids; deps_remaining = 0; work = work }

-- fetch_data, parse_json, fetch_config, validate, enrich and write_output.
abbrev demo : List Task
demo =
    task [] 3
    ∷ task [] 2
    ∷ task [] 1
    ∷ task (0 ∷ 1 ∷ []) 2
    ∷ task (3 ∷ 2 ∷ []) 3
    ∷ task (4 ∷ []) 2
    ∷ []

demo_built : main_tasks ≡ some demo
unfolding main_tasks task_register task_add_dep
demo_built = refl

abbrev seventeen : List ℕ
seventeen = replicate 17 work_validate

too_many_tasks : register_all seventeen [] ≡ none
unfolding task_register
too_many_tasks = refl

too_many_deps : add_deps (replicate 9 (3, 0)) demo ≡ none
unfolding task_add_dep
too_many_deps = refl

demo-Distinct : (t : ℕ) → Distinct (get_or demo t no_task).dep_ids
demo-Distinct zero = tt
demo-Distinct (suc zero) = tt
demo-Distinct (suc (suc zero)) = tt
demo-Distinct (suc (suc (suc zero))) = (refl, (refl, tt))
demo-Distinct (suc (suc (suc (suc zero)))) = (refl, (refl, tt))
demo-Distinct (suc (suc (suc (suc (suc zero))))) = (refl, tt)
demo-Distinct (suc (suc (suc (suc (suc (suc t)))))) = tt

-- fetch_data and parse_json run to their ends.
abbrev both_fetched : List ℕ
both_fetched = 0 ∷ 1 ∷ 0 ∷ 1 ∷ 0 ∷ 1 ∷ 0 ∷ []

abbrev validate : Run
validate = record { id = 3; left = none }

validate_created :
    get_or (turns task_coroutine both_fetched (started demo)).runs 3 none ≡ some validate
unfolding task_coroutine started roots notify task_graph_finalize
validate_created = refl

no_early_start_example : has 1 (turns task_coroutine both_fetched (started demo)).finished ≡ true
no_early_start_example =
    no_early_start demo demo-Distinct both_fetched 3 validate 1 validate_created refl

-- The number of a task is above those that it depends on.
demo-IsAcyclic : IsAcyclic (λ t. t) demo
demo-IsAcyclic zero d m = cc m
demo-IsAcyclic (suc zero) d m = cc m
demo-IsAcyclic (suc (suc zero)) d m = cc m
demo-IsAcyclic (suc (suc (suc zero))) d m = ground (arith, m)
demo-IsAcyclic (suc (suc (suc (suc zero)))) d m = ground (arith, m)
demo-IsAcyclic (suc (suc (suc (suc (suc zero))))) d m = ground (arith, m)
demo-IsAcyclic (suc (suc (suc (suc (suc (suc t)))))) d m = cc m

all_tasks_finish_example :
    AllFinished demo (rounds task_coroutine (replicate 20 (upto 6)) (started demo))
all_tasks_finish_example =
    all_tasks_finish demo (λ t. t) demo-Distinct demo-IsAcyclic (replicate 20 (upto 6))
      (AllFair-replicate 20 (upto-IsFair 6)) (omega arith)
