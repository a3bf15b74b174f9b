-- ===== src/Examples/Semaphore.antt =====
-- examples/semaphore.c: a counting semaphore, and workers that increment a counter under it.
-- `co_await(sem_ready, s)` of coro.h, which the repository does not have, lets its caller go on
-- only when `sem_ready` holds, as the comment on `sem_wait` says: until then its turns do nothing.
pub mod Counter
pub mod Exclusion
pub mod Logger
pub mod Progress
use c_coroutine.Base.{ℕ, ◌+◌, ◌-◌, Option, none, some, Bool, ltb, if◌then◌else◌, replicate}
use c_coroutine.Examples.Crowd.{Body, Crowd}

-- `coro_sem_t`, without the name that it is displayed by.
pub record CoroSem : Type 0 where
  pub count : ℕ
  pub max : ℕ

unfoldable pub sem_init : ℕ → CoroSem
sem_init count = record { count = count; max = count }

abbrev pub sem_ready : CoroSem → Bool
sem_ready s = ltb 0 s.count

-- `none` while the caller is suspended.
unfoldable pub sem_wait : CoroSem → Option CoroSem
sem_wait s = if sem_ready s then some (record s { count = s.count - 1 }) else none

unfoldable pub sem_post : CoroSem → CoroSem
sem_post s = if ltb s.count s.max then record s { count = s.count + 1 } else s

-- `g_sem` and `g_shared_counter`.
pub record Shared : Type 0 where
  pub sem : CoroSem
  pub shared_counter : ℕ

-- Where a worker is between two turns: not started, before `sem_wait`, at the first yield in the
-- critical section with `before`, and at the second.
pub data Worker : Type 0 where
  fresh waiting : Worker
  holding : ℕ → Worker
  incremented : Worker

unfoldable pub worker : Body Worker Shared
worker fresh u = (some waiting, u)
worker waiting u = elim (sem_wait u.sem) [
  | none ↦ (some waiting, u)
  | some s ↦ (some (holding u.shared_counter), record u { sem = s })
]
worker (holding before) u = (some incremented, record u { shared_counter = before + 1 })
worker incremented u = (none, record u { sem = sem_post u.sem })

-- `num_workers` workers on a semaphore of `num_slots`, as `main` creates them.
unfoldable pub started : (num_slots num_workers : ℕ) → Crowd Worker Shared
started num_slots num_workers = record {
  locals = replicate num_workers (some fresh);
  shared = record { sem = sem_init num_slots; shared_counter = 0 };
}
