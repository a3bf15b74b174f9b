-- ===== src/Examples/TaskGraph/Finish.antt =====
-- What the end of a task of examples/task_graph.c does to the open dependencies.
use c_coroutine.Base.{
  ℕ, zero, suc, ◌+◌, ◌≤◌, ◌≡◌, refl, sym, ap, ◌∙◌, List, [], ◌∷◌, ◌++◌, none, some, arith, true,
  false, has, Distinct, get_or, set, length, ◌==◌, ==_self, ltb, ℕ-cases, Bool-cases, inl, inr,
}
use c_coroutine.Examples.Crowd.{total, total-set}
use c_coroutine.Examples.TaskGraph.{Task, no_task, notified, notify, Run, spawn, Graph, task_work}
use c_coroutine.Examples.TaskGraph.Dependencies.{
  one_if, open_deps, times, runs_of, total-append, total-spawn, notify-at, spawned, times-notify,
  open_deps-next, IsCounting,
}

-- What the end of `self` does to a task, and to whether it is created.
notified_lem :
    (self : ℕ) (finished : List ℕ) (t : Task)
    → Distinct t.dep_ids
    → has self finished ≡ false
    → t.deps_remaining ≡ open_deps finished t.dep_ids
    → ((notified self t).dep_ids ≡ t.dep_ids)
      × ((notified self t).deps_remaining ≡ open_deps (self ∷ finished) t.dep_ids)
      × (one_if (spawned self t) + one_if (t.deps_remaining == 0)
          ≡ one_if ((notified self t).deps_remaining == 0))
notified_lem self finished t d new e =
    let next = open_deps-next self finished t.dep_ids d new in
    elim (Bool-cases (has self t.dep_ids)) [
      | inl dep ↦
          let one : one_if (has self t.dep_ids) ≡ 1 = ap one_if dep in
          rw dep (refl, omega arith, ground arith)
      | inr free ↦
          let zero_if : one_if (has self t.dep_ids) ≡ 0 = ap one_if free in
          rw free (refl, omega arith, omega arith)
    ]

finished-next :
    (self t : ℕ) (finished : List ℕ)
    → has self finished ≡ false
    → one_if (has t (self ∷ finished)) ≡ one_if (self == t) + one_if (has t finished)
finished-next self t finished new = elim (ℕ-cases self t) [
  | inl e ↦
      let same : (t == self) ≡ true = ground arith in
      let same' : (self == t) ≡ true = ground arith in
      let new' : has t finished ≡ false = ap (λ y. has y finished) (sym e) ∙ new in
      rw (same, same', new') (omega arith)
  | inr ne ↦
      let apart : (t == self) ≡ false = ground arith in
      let apart' : (self == t) ≡ false = ground arith in rw (apart, apart') (omega arith)
]

pub length-notify : (self i : ℕ) (tasks : List Task) → length (notify self i tasks).0 ≡ length tasks
unfolding notify
length-notify self i [] = refl
length-notify self i (t ∷ tasks) = ap suc (length-notify self (i + 1) tasks)

get_or-past : (tasks : List Task) (i : ℕ) → length tasks ≤ i → get_or tasks i no_task ≡ no_task
get_or-past [] i h = refl
get_or-past (t ∷ tasks) zero h = absurd (omega arith)
get_or-past (t ∷ tasks) (suc i) h = get_or-past tasks i (omega arith)

-- A task with a coroutine is in the registry, is not finished, and waits for nothing.
pub running-task :
    (g : Graph) (n : ℕ) (r : Run)
    → get_or g.runs n none ≡ some r
    → IsCounting g
    → (has r.id g.finished ≡ false) × ((get_or g.g_tasks r.id no_task).deps_remaining ≡ 0)
running-task g n r e h =
    let one = total-set (runs_of r.id) g.runs n none e in
    let self : one_if (r.id == r.id) ≡ 1 = ap one_if (==_self r.id) in
    elim (Bool-cases (ltb r.id (length g.g_tasks))) [
      | inr outside ↦ let z = h.known r.id (ground (arith, outside)) in absurd (omega arith)
      | inl inside ↦
          let c = h.created r.id (ground (arith, inside)) in
          elim (Bool-cases (has r.id g.finished)) [
            | inl already ↦
                let one' : one_if (has r.id g.finished) ≡ 1 = ap one_if already in ground arith
            | inr new ↦ (new, ground arith)
          ]
    ]

-- The coroutines of a task after one of `self` has ended.
runs-after :
    (g : Graph) (n : ℕ) (r : Run) (t : ℕ)
    → get_or g.runs n none ≡ some r
    → let r' = notify r.id 0 g.g_tasks in
      total (runs_of t) (set g.runs n none ++ spawn r'.1) + one_if (r.id == t)
      ≡ total (runs_of t) g.runs + one_if (spawned r.id (get_or g.g_tasks t no_task))
runs-after g n r t e =
    let ids = (notify r.id 0 g.g_tasks).1 in
    let place : 0 + t ≡ t = omega arith in
    let spawns = ap (λ m. times m ids) (sym place) ∙ times-notify r.id 0 t g.g_tasks in
    omega (
      arith,
      total-set (runs_of t) g.runs n none e,
      total-append t (set g.runs n none) (spawn ids),
      total-spawn t ids,
      spawns,
    )

pub finish-IsCounting :
    (g : Graph) (n : ℕ) (r : Run)
    → get_or g.runs n none ≡ some r
    → IsCounting g
    → IsCounting (task_work n r.id zero g)
finish-IsCounting g n r e h =
    let (new, _) = running-task g n r e h in
    let at : (t : ℕ)
        → get_or (notify r.id 0 g.g_tasks).0 t no_task
          ≡ notified r.id (get_or g.g_tasks t no_task) =
      λ t. notify-at r.id 0 g.g_tasks t in
    let after = λ (t : ℕ).
      notified_lem r.id g.finished (get_or g.g_tasks t no_task) (h.distinct t) new (h.counts t) in
    record {
      distinct = λ t. rw (at t, (after t).0) (h.distinct t);
      counts = λ t. rw (at t, (after t).0) (after t).1;
      created = λ t inside.
          let c = h.created t (omega (arith, length-notify r.id 0 g.g_tasks)) in
          rw (at t)
            (omega (arith, runs-after g n r t e, finished-next r.id t g.finished new, (after t).2));
      known = λ t outside.
          let past = length-notify r.id 0 g.g_tasks in
          let z = h.known t (omega arith) in
          let none_spawned : one_if (spawned r.id (get_or g.g_tasks t no_task)) ≡ 0 =
            ap (λ x. one_if (spawned r.id x)) (get_or-past g.g_tasks t (omega arith)) in
          omega (arith, runs-after g n r t e);
    }
