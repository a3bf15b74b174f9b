-- ===== src/Examples/Semaphore/Logger.antt =====
-- The second demo of examples/semaphore.c: loggers that append to a shared text under a mutex,
-- which is a semaphore with one slot. A text is the list of its characters, without the zero that
-- ends it; `text_of` is the text that snprintf makes of the number of a logger.
pub mod Log
pub mod Text
pub mod Progress
use c_coroutine.Base.{ℕ, ◌-◌, List, [], ◌∷◌, ◌++◌, Option, none, some, length, take, upto}
use c_coroutine.Examples.Crowd.{Body, Crowd}
use c_coroutine.Examples.Semaphore.{CoroSem, sem_init, sem_wait, sem_post}

abbrev pub log_size : ℕ
log_size = 256

unfoldable pub mutex_init : CoroSem
mutex_init = sem_init 1

unfoldable pub mutex_lock : CoroSem → Option CoroSem
mutex_lock m = sem_wait m

unfoldable pub mutex_unlock : CoroSem → CoroSem
mutex_unlock m = sem_post m

-- `g_log_mutex` and `g_log`.
pub record Logged : Type 0 where
  pub mutex : CoroSem
  pub log : List ℕ

-- `strncat` with what is left of the buffer as its bound.
unfoldable pub append : List ℕ → List ℕ → List ℕ
append log entry = log ++ take (log_size - length log - 1) entry

-- Before the first yield, at `mutex_lock`, and at the yield with the mutex held.
pub data LoggerPlace : Type 0 where
  created locking logging : ℕ → LoggerPlace

unfoldable pub logger : (ℕ → List ℕ) → Body LoggerPlace Logged
logger text_of (created id) u = (some (locking id), u)
logger text_of (locking id) u = elim (mutex_lock u.mutex) [
  | none ↦ (some (locking id), u)
  | some m ↦ (some (logging id), record { mutex = m; log = append u.log (text_of id) })
]
logger text_of (logging id) u = (none, record u { mutex = mutex_unlock u.mutex })

abbrev pub loggers : List ℕ → List (Option LoggerPlace)
loggers [] = []
loggers (i ∷ is) = some (created i) ∷ loggers is

unfoldable pub logging_started : ℕ → Crowd LoggerPlace Logged
logging_started num_loggers = record {
  locals = loggers (upto num_loggers);
  shared = record { mutex = mutex_init; log = [] };
}
