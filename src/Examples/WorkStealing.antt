-- ===== src/Examples/WorkStealing.antt =====
-- examples/work_stealing.c: a dispatcher fills a shared queue, and workers with local queues take
-- tasks from it.
pub mod Conservation
pub mod Kept
pub mod Progress
pub mod Finish
use c_coroutine.Base.{
  ℕ, zero, suc, ◌+◌, ◌%◌, List, [], ◌∷◌, ◌++◌, Option, none, some, length, get_or, set, ltb, ◌==◌,
  if◌then◌else◌, replicate,
}
use c_coroutine.Ring.{Ring, insert, remove, empty}

abbrev pub num_workers : ℕ
num_workers = 4

abbrev pub total_tasks : ℕ
total_tasks = 20

abbrev pub local_cap : ℕ
local_cap = 4

abbrev pub global_cap : ℕ
global_cap = 32

pub record Task : Type 0 where
  pub id : ℕ
  pub cost : ℕ

abbrev pub no_task : Task
no_task = record { id = 0; cost = 0 }

abbrev pub tq_init : Ring Task
tq_init = empty global_cap no_task

-- `none` if the queue is full.
unfoldable pub tq_push : Ring Task → Task → Option (Ring Task)
tq_push q t = if q.size == global_cap then none else some (insert global_cap t q)

-- `none` if the queue is empty.
unfoldable pub tq_pop : Ring Task → Option (Task × Ring Task)
tq_pop q = if q.size == 0 then none else some (get_or q.slots q.head no_task, remove global_cap q)

-- The loop that takes tasks from the global queue, while fewer than `n + left` are taken.
unfoldable pub steal : (left : ℕ) → Ring Task → List Task × Ring Task
steal zero q = ([], q)
steal (suc left) q = elim (tq_pop q) [
  | none ↦ ([], q)
  | some popped ↦ let others = steal left popped.1 in (popped.0 ∷ others.0, others.1)
]

-- The first `local_size` entries of `local`, the last of them first.
pub record WorkerState : Type 0 where
  pub local : List Task
  pub stolen : ℕ
  pub processed : ℕ

-- The loop that copies the stolen tasks: each is written behind the one before.
abbrev pub copy : List Task → List Task → List Task
copy [] local = local
copy (t ∷ tasks) local = copy tasks (t ∷ local)

-- The globals, and the tasks that are printed as finished.
pub record Shared : Type 0 where
  pub global_queue : Ring Task
  pub tasks_completed : ℕ
  pub finished : List Task

-- What a worker does with its stolen tasks: it ends if there are none and all tasks are completed.
abbrev pub with_stolen : List Task → WorkerState → Shared → Option WorkerState × Shared
with_stolen [] w s = if ltb s.tasks_completed total_tasks then (some w, s) else (none, s)
with_stolen (t ∷ tasks) w s = (
  some (record w { local = copy (t ∷ tasks) w.local; stolen = w.stolen + length (t ∷ tasks) }),
  s,
)

abbrev pub worker_on : List Task → WorkerState → Shared → Option WorkerState × Shared
worker_on (t ∷ local) w s = (
  some (record w { local = local; processed = w.processed + 1 }),
  record s { tasks_completed = s.tasks_completed + 1; finished = t ∷ s.finished },
)
worker_on [] w s =
    let stolen = steal local_cap s.global_queue in
    with_stolen stolen.0 w (record s { global_queue = stolen.1 })

-- One turn of a worker: each of its yields leads back to the test of its local queue.
unfoldable pub worker_fn : WorkerState → Shared → Option WorkerState × Shared
worker_fn w s = worker_on w.local w s

abbrev pub task : ℕ → Task
task i = record { id = i + 1; cost = i % 5 + 1 }

-- One turn of the dispatcher before it pushes task `i`.
unfoldable pub dispatcher_fn : ℕ → Shared → Option ℕ × Shared
dispatcher_fn i s =
    if ltb i total_tasks
    then elim (tq_push s.global_queue (task i)) [
      | none ↦ (some i, s)
      | some q ↦ (some (i + 1), record s { global_queue = q })
    ]
    else (none, s)

pub record Pool : Type 0 where
  pub dispatcher : Option ℕ
  pub workers : List (Option WorkerState)
  pub shared : Shared

pub data Who : Type 0 where
  dispatch : Who
  work : ℕ → Who

abbrev pub dispatcher_turn : Option ℕ → Pool → Pool
dispatcher_turn none p = p
dispatcher_turn (some i) p =
    let r = dispatcher_fn i p.shared in record p { dispatcher = r.0; shared = r.1 }

abbrev pub worker_turn : ℕ → Option WorkerState → Pool → Pool
worker_turn n none p = p
worker_turn n (some w) p =
    let r = worker_fn w p.shared in record p { workers = set p.workers n r.0; shared = r.1 }

unfoldable pub turn : Who → Pool → Pool
turn dispatch p = dispatcher_turn p.dispatcher p
turn (work n) p = worker_turn n (get_or p.workers n none) p

abbrev pub started : Pool
started = record {
  dispatcher = some 0;
  workers = replicate num_workers (some (record { local = []; stolen = 0; processed = 0 }));
  shared = record { global_queue = tq_init; tasks_completed = 0; finished = [] };
}
