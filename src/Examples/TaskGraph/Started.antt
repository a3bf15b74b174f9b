-- ===== src/Examples/TaskGraph/Started.antt =====
-- What holds of examples/task_graph.c from its start on, in every order of the turns.
use c_coroutine.Base.{
  ℕ, zero, suc, ◌+◌, ◌<◌, ◌≡◌, refl, sym, ap, ◌∙◌, List, [], ◌∷◌, Option, none, some, arith, true,
  false, not, has, Distinct, get_or, length, ◌==◌, ltb, if◌then◌else◌, ℕ-cases, Bool-cases,
  Option-cases, inl, inr, ◌||◌,
}
use c_coroutine.Examples.Crowd.{total-set}
use c_coroutine.Examples.Turns.{turns, turns_keep}
use c_coroutine.Examples.TaskGraph.{
  Task, no_task, task_graph_finalize, notified, Run, Graph, task_work, task_coroutine, roots,
  started,
}
use c_coroutine.Examples.TaskGraph.Dependencies.{
  IsCounting, open_deps, one_if, runs_of, times, total-spawn, notify-at,
}
use c_coroutine.Examples.TaskGraph.Finish.{finish-IsCounting, running-task}

-- The dependencies are those of the registry.
abbrev pub SameDeps : List Task → Graph → Type 0
SameDeps tasks g = (t : ℕ) → (get_or g.g_tasks t no_task).dep_ids ≡ (get_or tasks t no_task).dep_ids

notified-deps : (self : ℕ) (t : Task) → (notified self t).dep_ids ≡ t.dep_ids
notified-deps self t = elim (Bool-cases (has self t.dep_ids)) [
  | inl dep ↦ rw dep refl
  | inr free ↦ rw free refl
]

abbrev pub IsRunning : List Task → Graph → Type 0
IsRunning tasks g = IsCounting g × SameDeps tasks g

work-IsRunning :
    (tasks : List Task) (g : Graph) (n : ℕ) (r : Run) (left : ℕ)
    → get_or g.runs n none ≡ some r
    → IsRunning tasks g
    → IsRunning tasks (task_work n r.id left g)
work-IsRunning tasks g n r zero e (h, same) = (
  finish-IsCounting g n r e h,
  λ t.
      ap (λ (x : Task). x.dep_ids) (notify-at r.id 0 g.g_tasks t)
      ∙ notified-deps r.id (get_or g.g_tasks t no_task)
      ∙ same t,
)
work-IsRunning tasks g n r (suc left) e (h, same) =
    let v : Option Run = some (record { id = r.id; left = some left }) in
    (
      record {
        distinct = h.distinct;
        counts = h.counts;
        created = λ t inside. omega (arith, total-set (runs_of t) g.runs n v e, h.created t inside);
        known = λ t outside. omega (arith, total-set (runs_of t) g.runs n v e, h.known t outside);
      },
      same,
    )

pub turn-IsRunning :
    (tasks : List Task) (n : ℕ) (g : Graph)
    → IsRunning tasks g
    → IsRunning tasks (task_coroutine n g)
unfolding task_coroutine
turn-IsRunning tasks n g h = elim (Option-cases (get_or g.runs n none)) [
  | inl e ↦ rw e h
  | inr (r, e) ↦ elim (Option-cases r.left) [
    | inl fresh ↦
        rw (e, fresh) (work-IsRunning tasks g n r (get_or g.g_tasks r.id no_task).work e h)
    | inr (left, on) ↦ rw (e, on) (work-IsRunning tasks g n r left e h)
  ]
]

pub finalize-at :
    (tasks : List Task) (t : ℕ)
    → get_or (task_graph_finalize tasks) t no_task
      ≡ record (get_or tasks t no_task) { deps_remaining = length (get_or tasks t no_task).dep_ids }
unfolding task_graph_finalize
finalize-at [] t = refl
finalize-at (x ∷ tasks) zero = refl
finalize-at (x ∷ tasks) (suc t) = finalize-at tasks t

pub length-finalize : (tasks : List Task) → length (task_graph_finalize tasks) ≡ length tasks
unfolding task_graph_finalize
length-finalize [] = refl
length-finalize (x ∷ tasks) = ap suc (length-finalize tasks)

open_deps-none : (deps : List ℕ) → open_deps [] deps ≡ length deps
open_deps-none [] = refl
open_deps-none (d ∷ deps) = omega (arith, open_deps-none deps)

roots-before : (i t : ℕ) (tasks : List Task) → t < i → times t (roots i tasks) ≡ 0
unfolding roots
roots-before i t [] h = refl
roots-before i t (x ∷ tasks) h =
    let rest = roots-before (i + 1) t tasks (omega arith) in
    let ne : (i == t) ≡ false = ground arith in
    elim (Bool-cases (length x.dep_ids == 0)) [
      | inl root ↦ rw (root, roots, ne) (omega (arith, rest))
      | inr waits ↦ rw (waits, roots) rest
    ]

-- Each root is created once, and no other task.
pub roots-at :
    (i j : ℕ) (tasks : List Task)
    → times (i + j) (roots i tasks)
      ≡ (if ltb j (length tasks) then one_if (length (get_or tasks j no_task).dep_ids == 0) else 0)
unfolding roots
roots-at i j [] = ground arith
roots-at i zero (x ∷ tasks) =
    let rest = roots-before (i + 1) (i + 0) tasks (omega arith) in
    let same : (i == i + 0) ≡ true = ground arith in
    let inside : ltb 0 (suc (length tasks)) ≡ true = ground arith in
    elim (Bool-cases (length x.dep_ids == 0)) [
      | inl root ↦ rw (root, roots, same, inside) (omega (arith, rest))
      | inr waits ↦ rw (waits, roots, inside) rest
    ]
roots-at i (suc j) (x ∷ tasks) =
    let place : i + 1 + j ≡ i + suc j = omega arith in
    let rest = ap (λ t. times t (roots (i + 1) tasks)) (sym place) ∙ roots-at (i + 1) j tasks in
    let ne : (i == i + suc j) ≡ false = ground arith in
    let inside : ltb (suc j) (suc (length tasks)) ≡ ltb j (length tasks) = ground arith in
    elim (Bool-cases (length x.dep_ids == 0)) [
      | inl root ↦ rw (root, roots, ne, inside) (omega (arith, rest))
      | inr waits ↦ rw (waits, roots, inside) rest
    ]

pub started-IsRunning :
    (tasks : List Task)
    → ((t : ℕ) → Distinct (get_or tasks t no_task).dep_ids)
    → IsRunning tasks (started tasks)
unfolding started
started-IsRunning tasks d =
    let roots_of = λ (t : ℕ).
      total-spawn t (roots 0 tasks)
      ∙ (let place : t ≡ 0 + t = omega arith in ap (λ m. times m (roots 0 tasks)) place)
      ∙ roots-at 0 t tasks in
    (
      record {
        distinct = λ t. rw (finalize-at tasks t) (d t);
        counts =
            λ t. rw (finalize-at tasks t) (sym (open_deps-none (get_or tasks t no_task).dep_ids));
        created = λ t inside.
            let test : ltb t (length tasks) ≡ true =
              ground (arith, inside, length-finalize tasks) in
            let here =
              roots_of t
              ∙ ap (λ b. if b then one_if (length (get_or tasks t no_task).dep_ids == 0) else 0)
                  test in
            rw (finalize-at tasks t) (omega (arith, here));
        known = λ t outside.
            let test : ltb t (length tasks) ≡ false =
              ground (arith, outside, length-finalize tasks) in
            roots_of t
            ∙ ap (λ b. if b then one_if (length (get_or tasks t no_task).dep_ids == 0) else 0) test;
      },
      λ t. ap (λ (x : Task). x.dep_ids) (finalize-at tasks t),
    )

all-finished :
    (finished deps : List ℕ) (d : ℕ)
    → open_deps finished deps ≡ 0
    → has d deps ≡ true
    → has d finished ≡ true
all-finished finished [] d z m = ground (arith, m)
all-finished finished (x ∷ deps) d z m = elim (Bool-cases (has x finished)) [
  | inr missing ↦
      let one : one_if (not (has x finished)) ≡ 1 = ap (λ b. one_if (not b)) missing in
      absurd (omega arith)
  | inl there ↦ elim (ℕ-cases d x) [
    | inl e ↦ ap (λ y. has y finished) e ∙ there
    | inr ne ↦
        let apart : (d == x) ≡ false = ground arith in
        all-finished finished deps d (omega arith) (ap (λ b. b || has d deps) (sym apart) ∙ m)
  ]
]

-- On a graph in which no task lists a dependency twice, after any sequence of turns, every task
-- that a coroutine has been created for and that has not ended depends only on tasks that are
-- finished.
pub no_early_start :
    (tasks : List Task)
    → ((t : ℕ) → Distinct (get_or tasks t no_task).dep_ids)
    → (schedule : List ℕ) (n : ℕ) (r : Run) (d : ℕ)
    → get_or (turns task_coroutine schedule (started tasks)).runs n none ≡ some r
    → has d (get_or tasks r.id no_task).dep_ids ≡ true
    → has d (turns task_coroutine schedule (started tasks)).finished ≡ true
no_early_start tasks distinct schedule n r d e dep =
    let g = turns task_coroutine schedule (started tasks) in
    let (h, same) =
      turns_keep task_coroutine (IsRunning tasks) (turn-IsRunning tasks) schedule (started tasks)
        (started-IsRunning tasks distinct) in
    let (_, z) = running-task g n r e h in
    all-finished g.finished (get_or g.g_tasks r.id no_task).dep_ids d (omega (arith, h.counts r.id))
      (ap (has d) (same r.id) ∙ dep)
