-- ===== src/Examples/TaskGraph/Dependencies.antt =====
-- The open dependencies of the tasks of examples/task_graph.c, and what the counters count.
use c_coroutine.Base.{
  ℕ, zero, suc, ◌+◌, ◌≤◌, ◌<◌, ◌≡◌, refl, sym, ap, ◌∙◌, List, [], ◌∷◌, ◌++◌, Option, none, some,
  arith, Bool, true, false, not, ◌&&◌, ◌||◌, has, Distinct, get_or, length, ◌==◌, if◌then◌else◌,
  ℕ-cases, Bool-cases, inl, inr,
}
use c_coroutine.Examples.Crowd.{total}
use c_coroutine.Examples.TaskGraph.{Task, no_task, notified, notify, Run, spawn, Graph}

abbrev pub one_if : Bool → ℕ
one_if b = if b then 1 else 0

-- How many of the dependencies are not finished.
abbrev pub open_deps : (finished deps : List ℕ) → ℕ
open_deps finished [] = 0
open_deps finished (d ∷ deps) = one_if (not (has d finished)) + open_deps finished deps

abbrev pub times : ℕ → List ℕ → ℕ
times t [] = 0
times t (x ∷ xs) = one_if (x == t) + times t xs

abbrev pub runs_of : ℕ → Option Run → ℕ
runs_of t none = 0
runs_of t (some r) = one_if (r.id == t)

pub total-append :
    (t : ℕ) (xs ys : List (Option Run))
    → total (runs_of t) (xs ++ ys) ≡ total (runs_of t) xs + total (runs_of t) ys
total-append t [] ys = omega arith
total-append t (x ∷ xs) ys = omega (arith, total-append t xs ys)

pub total-spawn : (t : ℕ) (ids : List ℕ) → total (runs_of t) (spawn ids) ≡ times t ids
total-spawn t [] = refl
total-spawn t (i ∷ ids) = omega (arith, total-spawn t ids)

pub notify-at :
    (self i : ℕ) (tasks : List Task) (j : ℕ)
    → get_or (notify self i tasks).0 j no_task ≡ notified self (get_or tasks j no_task)
unfolding notify
notify-at self i [] j = refl
notify-at self i (t ∷ tasks) zero = refl
notify-at self i (t ∷ tasks) (suc j) = notify-at self (i + 1) tasks j

-- Whether a task is spawned when `self` ends.
abbrev pub spawned : ℕ → Task → Bool
spawned self t = has self t.dep_ids && (t.deps_remaining == 1)

times-before : (self i t : ℕ) (tasks : List Task) → t < i → times t (notify self i tasks).1 ≡ 0
unfolding notify
times-before self i t [] h = refl
times-before self i t (x ∷ tasks) h =
    let rest = times-before self (i + 1) t tasks (omega arith) in
    let ne : (i == t) ≡ false = ground arith in
    elim (Bool-cases (has self x.dep_ids)) [
      | inr free ↦ rw (free, notify) rest
      | inl dep ↦ elim (Bool-cases (x.deps_remaining == 1)) [
        | inl one ↦ rw (dep, one, notify, ne) (omega (arith, rest))
        | inr more ↦ rw (dep, more, notify) rest
      ]
    ]

pub times-notify :
    (self i j : ℕ) (tasks : List Task)
    → times (i + j) (notify self i tasks).1 ≡ one_if (spawned self (get_or tasks j no_task))
unfolding notify
times-notify self i j [] = refl
times-notify self i zero (x ∷ tasks) =
    let rest = times-before self (i + 1) (i + 0) tasks (omega arith) in
    let same : (i == i + 0) ≡ true = ground arith in
    elim (Bool-cases (has self x.dep_ids)) [
      | inr free ↦ rw (free, notify) rest
      | inl dep ↦ elim (Bool-cases (x.deps_remaining == 1)) [
        | inl one ↦ rw (dep, one, notify, same) (omega (arith, rest))
        | inr more ↦ rw (dep, more, notify) rest
      ]
    ]
times-notify self i (suc j) (x ∷ tasks) =
    let place : i + 1 + j ≡ i + suc j = omega arith in
    let rest =
      ap (λ t. times t (notify self (i + 1) tasks).1) (sym place)
      ∙ times-notify self (i + 1) j tasks in
    let ne : (i == i + suc j) ≡ false = ground arith in
    elim (Bool-cases (has self x.dep_ids)) [
      | inr free ↦ rw (free, notify) rest
      | inl dep ↦ elim (Bool-cases (x.deps_remaining == 1)) [
        | inl one ↦ rw (dep, one, notify, ne) (omega (arith, rest))
        | inr more ↦ rw (dep, more, notify) rest
      ]
    ]

-- One dependency less is open, if the task depends on the one that ends.
open_deps-absent :
    (self : ℕ) (finished deps : List ℕ)
    → has self deps ≡ false
    → open_deps (self ∷ finished) deps ≡ open_deps finished deps
open_deps-absent self finished [] free = refl
open_deps-absent self finished (d ∷ deps) free = elim (ℕ-cases self d) [
  | inl e ↦ ground (arith, free, e)
  | inr ne ↦
      let apart : (self == d) ≡ false = ground arith in
      let apart' : (d == self) ≡ false = ground arith in
      let free' : has self deps ≡ false = ap (λ b. b || has self deps) (sym apart) ∙ free in
      rw (apart', open_deps-absent self finished deps free') refl
]

pub open_deps-next :
    (self : ℕ) (finished deps : List ℕ)
    → Distinct deps
    → has self finished ≡ false
    → open_deps (self ∷ finished) deps + one_if (has self deps) ≡ open_deps finished deps
open_deps-next self finished [] d free = omega arith
open_deps-next self finished (x ∷ deps) (fresh, d) free = elim (ℕ-cases self x) [
  | inl e ↦
      let absent : has self deps ≡ false = ap (λ y. has y deps) e ∙ fresh in
      let same : (x == self) ≡ true = ground arith in
      let same' : (self == x) ≡ true = ground arith in
      let open_x : has x finished ≡ false = ap (λ y. has y finished) (sym e) ∙ free in
      rw (same, same', open_x) (omega (arith, open_deps-absent self finished deps absent))
  | inr ne ↦
      let apart : (self == x) ≡ false = ground arith in
      let apart' : (x == self) ≡ false = ground arith in
      rw (apart, apart') (omega (arith, open_deps-next self finished deps d free))
]

-- One if a task is finished, and one if all its dependencies are.
abbrev pub IsCreated : Graph → ℕ → Type 0
IsCreated g t =
    let task = get_or g.g_tasks t no_task in
    total (runs_of t) g.runs + one_if (has t g.finished) ≡ one_if (task.deps_remaining == 0)

-- The counters count the open dependencies, and a task has a coroutine or is finished, once,
-- exactly if its counter is zero.
pub record IsCounting (g : Graph) : Type 0 where
  pub distinct : (t : ℕ) → Distinct (get_or g.g_tasks t no_task).dep_ids
  pub counts :
      (t : ℕ)
      → let task = get_or g.g_tasks t no_task in
        task.deps_remaining ≡ open_deps g.finished task.dep_ids
  pub created : (t : ℕ) → t < length g.g_tasks → IsCreated g t
  pub known : (t : ℕ) → length g.g_tasks ≤ t → total (runs_of t) g.runs ≡ 0
