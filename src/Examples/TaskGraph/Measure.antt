-- ===== src/Examples/TaskGraph/Measure.antt =====
-- The turns that are left to the tasks of examples/task_graph.c.
use c_coroutine.Base.{
  ℕ, zero, suc, ◌+◌, ◌-◌, ◌*◌, ◌≤◌, ◌<◌, ◌≡◌, refl, sym, ap, ◌∙◌, List, [], ◌∷◌, ◌++◌, Option, none,
  some, arith, true, false, has, get_or, set, ◌==◌, ==_self, if◌then◌else◌, ℕ-cases, Bool-cases,
  inl, inr,
}
use c_coroutine.Examples.Crowd.{total, total-set}
use c_coroutine.Examples.TaskGraph.{Task, no_task, notified, notify, Run, spawn, Graph, task_work}
use c_coroutine.Examples.TaskGraph.Dependencies.{one_if, times, times-notify, notify-at, spawned}

-- The sum of `f` over the numbers below `n`.
abbrev pub below : ℕ → (ℕ → ℕ) → ℕ
below zero f = 0
below (suc n) f = f n + below n f

pub below_le : (n : ℕ) (f g : ℕ → ℕ) → ((t : ℕ) → t < n → f t ≤ g t) → below n f ≤ below n g
below_le zero f g h = omega arith
below_le (suc n) f g h =
    omega (arith, h n (omega arith), below_le n f g (λ t less. h t (omega arith)))

pub below_lt :
    (n : ℕ) (f g : ℕ → ℕ) (i : ℕ)
    → ((t : ℕ) → f t ≤ g t)
    → i < n
    → f i < g i
    → below n f < below n g
below_lt zero f g i h inside less = absurd (omega arith)
below_lt (suc n) f g i h inside less = elim (ℕ-cases i n) [
  | inl e ↦ let less' : f n < g n = rw (← e) less in omega (arith, below_le n f g (λ t _. h t))
  | inr ne ↦ omega (arith, h n, below_lt n f g i h (omega arith) less)
]

-- The turns left to a coroutine of the task `t`, whose work yields `work` times.
abbrev pub rest_of : (t work : ℕ) → Option Run → ℕ
rest_of t work none = 0
rest_of t work (some r) =
    if r.id == t then (elim r.left [ none ↦ work + 1 | some left ↦ left + 1 ]) else 0

abbrev waiting : (work deps_remaining : ℕ) → ℕ
waiting work deps_remaining = if deps_remaining == 0 then 0 else work + 1

-- The turns left to a task: those of its coroutines, or all while it has none.
abbrev pub rest : Graph → ℕ → ℕ
rest g t =
    let task = get_or g.g_tasks t no_task in
    total (rest_of t task.work) g.runs + waiting task.work task.deps_remaining

total-append :
    (f : Option Run → ℕ) (xs ys : List (Option Run)) → total f (xs ++ ys) ≡ total f xs + total f ys
total-append f [] ys = omega arith
total-append f (x ∷ xs) ys = omega (arith, total-append f xs ys)

pub total-spawn :
    (t work : ℕ) (ids : List ℕ) → total (rest_of t work) (spawn ids) ≡ times t ids * (work + 1)
total-spawn t work [] = omega arith
total-spawn t work (i ∷ ids) = elim (Bool-cases (i == t)) [
  | inl own ↦ rw own (omega (arith, total-spawn t work ids))
  | inr other ↦ rw other (omega (arith, total-spawn t work ids))
]

-- A notification moves the turns of a task from its waiting to its coroutine.
waiting-notified :
    (self : ℕ) (task : Task)
    → one_if (spawned self task) * (task.work + 1)
        + waiting task.work (notified self task).deps_remaining
      ≡ waiting task.work task.deps_remaining
waiting-notified self task = elim (Bool-cases (has self task.dep_ids)) [
  | inr free ↦ rw free (omega arith)
  | inl dep ↦ elim (Bool-cases (task.deps_remaining == 1)) [
    | inl one ↦
        let before : (task.deps_remaining == 0) ≡ false = ground (arith, one) in
        let after : (task.deps_remaining - 1 == 0) ≡ true = ground (arith, one) in
        rw (dep, one, before, after) (omega arith)
    | inr more ↦
        let same : (task.deps_remaining - 1 == 0) ≡ (task.deps_remaining == 0) =
          ground (arith, more) in
        rw (dep, more, same) (omega arith)
  ]
]

notified-work : (self : ℕ) (task : Task) → (notified self task).work ≡ task.work
notified-work self task = elim (Bool-cases (has self task.dep_ids)) [
  | inl dep ↦ rw dep refl
  | inr free ↦ rw free refl
]

-- The end of a coroutine takes its own turns off, and moves those of the tasks that it spawns.
rest-end :
    (g : Graph) (n : ℕ) (r : Run) (t : ℕ)
    → get_or g.runs n none ≡ some r
    → rest (task_work n r.id zero g) t + rest_of t (get_or g.g_tasks t no_task).work (some r)
      ≡ rest g t
rest-end g n r t e =
    let task = get_or g.g_tasks t no_task in
    let ids = (notify r.id 0 g.g_tasks).1 in
    let place : 0 + t ≡ t = omega arith in
    let spawns : times t ids ≡ one_if (spawned r.id task) =
      ap (λ m. times m ids) (sym place) ∙ times-notify r.id 0 t g.g_tasks in
    let moved = ap (λ k. k * (task.work + 1)) spawns in
    rw (notify-at r.id 0 g.g_tasks t, notified-work r.id task)
      (omega (
        arith,
        total-set (rest_of t task.work) g.runs n none e,
        total-append (rest_of t task.work) (set g.runs n none) (spawn ids),
        total-spawn t task.work ids,
        waiting-notified r.id task,
        moved,
      ))

rest-yield :
    (g : Graph) (n : ℕ) (r : Run) (left t : ℕ)
    → get_or g.runs n none ≡ some r
    → let w = (get_or g.g_tasks t no_task).work in
      rest (task_work n r.id (suc left) g) t + rest_of t w (some r)
      ≡ rest g t + rest_of t w (some (record { id = r.id; left = some left }))
rest-yield g n r left t e = omega (
  arith,
  total-set (rest_of t (get_or g.g_tasks t no_task).work) g.runs n
      (some (record { id = r.id; left = some left })) e,
)

-- The turns left to the own task of a coroutine, and to others.
rest_of-own :
    (r : Run) (work : ℕ)
    → rest_of r.id work (some r) ≡ (elim r.left [ none ↦ work + 1 | some left ↦ left + 1 ])
rest_of-own r work =
    ap (λ b. if b then (elim r.left [ none ↦ work + 1 | some left ↦ left + 1 ]) else 0)
      (==_self r.id)

-- One turn of a coroutine with `left` more yields takes one turn off its task.
pub work-rest :
    (g : Graph) (n : ℕ) (r : Run) (left : ℕ)
    → get_or g.runs n none ≡ some r
    → ((t : ℕ)
        → rest_of t (get_or g.g_tasks t no_task).work (some r) ≡ one_if (r.id == t) * (left + 1))
    → ((t : ℕ) → rest (task_work n r.id left g) t ≤ rest g t)
      × (rest (task_work n r.id left g) r.id < rest g r.id)
work-rest g n r zero e now =
    let own = ap one_if (==_self r.id) in
    ((λ t. omega (arith, rest-end g n r t e)), omega (arith, rest-end g n r r.id e, now r.id, own))
work-rest g n r (suc left) e now =
    let own = ap one_if (==_self r.id) in
    let next : (t : ℕ) (w : ℕ)
        → rest_of t w (some (record { id = r.id; left = some left }))
          ≡ one_if (r.id == t) * (left + 1) =
      λ t w. ground arith in
    (
      (λ t.
          omega
            (arith, rest-yield g n r left t e, now t, next t (get_or g.g_tasks t no_task).work)),
      omega (
        arith,
        rest-yield g n r left r.id e,
        now r.id,
        next r.id (get_or g.g_tasks r.id no_task).work,
        own,
        ap (λ k. k * (left + 1)) own,
        ap (λ k. k * (suc left + 1)) own,
      ),
    )
