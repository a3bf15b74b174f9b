-- ===== src/Examples/AsyncIo.antt =====
-- examples/async_io.c: requests that complete after a number of ticks, the workers that wait for
-- them, and the event loop of `main`. `co_resume` runs a worker to its next yield.
pub mod Latency
use c_coroutine.Base.{
  ℕ, zero, suc, ◌+◌, ◌-◌, List, [], ◌∷◌, ◌++◌, Option, none, some, Bool, true, false, not, get_or,
  ltb, if◌then◌else◌,
}

abbrev pub max_ops : ℕ
max_ops = 16

pub data IoOp : Type 0 where
  op_read op_write : IoOp

-- `ticks_left` stops at 0, where that of a request that completes with a latency of 0 goes on to
-- -1; only its comparison with 0 is read.
pub record IoRequest : Type 0 where
  pub active : Bool
  pub kind : IoOp
  pub fd : ℕ
  pub nbytes : ℕ
  pub ticks_left : ℕ
  pub worker_id : ℕ

abbrev pub no_request : IoRequest
no_request = record {
  active = false;
  kind = op_read;
  fd = 0;
  nbytes = 0;
  ticks_left = 0;
  worker_id = 0;
}

-- `io_queue` and `global_tick`.
pub record Io : Type 0 where
  pub io_queue : List IoRequest
  pub global_tick : ℕ

-- The loop of `io_submit`: the first slot from `i` on that is not active, and the slots with the
-- request in it; `none` is the result -1.
unfoldable pub submit_from : IoRequest → (i : ℕ) → List IoRequest → Option ℕ × List IoRequest
submit_from request i [] = (none, [])
submit_from request i (r ∷ slots) =
    let later = submit_from request (i + 1) slots in
    if r.active then (later.0, r ∷ later.1) else (some i, request ∷ slots)

unfoldable pub io_submit : IoOp → (fd nbytes latency wid : ℕ) → Io → Option ℕ × Io
io_submit kind fd nbytes latency wid io =
    let r =
      submit_from
        (record {
          active = true;
          kind = kind;
          fd = fd;
          nbytes = nbytes;
          ticks_left = latency;
          worker_id = wid;
        })
        0 io.io_queue in
    (r.0, record io { io_queue = r.1 })

abbrev pub advance : IoRequest → IoRequest
advance r =
    if r.active
    then record r { ticks_left = r.ticks_left - 1; active = ltb 0 (r.ticks_left - 1) }
    else r

unfoldable pub advance_all : List IoRequest → List IoRequest
advance_all [] = []
advance_all (r ∷ slots) = advance r ∷ advance_all slots

abbrev pub count_active : List IoRequest → ℕ
count_active [] = 0
count_active (r ∷ slots) = (if r.active then 1 else 0) + count_active slots

-- The number of requests that are still active, and the state after the tick.
unfoldable pub io_tick : Io → ℕ × Io
io_tick io =
    let slots = advance_all io.io_queue in
    (count_active slots, record { io_queue = slots; global_tick = io.global_tick + 1 })

unfoldable pub io_done : ℕ → Io → Bool
io_done slot io = not (get_or io.io_queue slot no_request).active

pub record WorkerArgs : Type 0 where
  pub id : ℕ
  pub kind : IoOp
  pub fd : ℕ
  pub nbytes : ℕ
  pub latency : ℕ

-- A worker before it starts, and at its yield with its slot and its first tick.
pub data Worker : Type 0 where
  fresh : WorkerArgs → Worker
  waiting : (slot start_tick : ℕ) → Worker

-- What a worker reports: the ticks that its request took, or that there was no slot.
pub data Report : Type 0 where
  elapsed : ℕ → Report
  queue_full : Report

abbrev pub wait_for : (slot start_tick : ℕ) → Io → Option Worker × List Report
wait_for slot start_tick io =
    if io_done slot io
    then (none, elapsed (io.global_tick - start_tick) ∷ [])
    else (some (waiting slot start_tick), [])

-- A turn: what the worker does next, the requests, and what it reports.
unfoldable pub io_worker : Worker → Io → Option Worker × Io × List Report
io_worker (fresh a) io =
    let submitted = io_submit a.kind a.fd a.nbytes a.latency a.id io in
    elim submitted.0 [
      | none ↦ (none, submitted.1, queue_full ∷ [])
      | some slot ↦
          let r = wait_for slot submitted.1.global_tick submitted.1 in (r.0, submitted.1, r.1)
    ]
io_worker (waiting slot start_tick) io = let r = wait_for slot start_tick io in (r.0, io, r.1)

-- The workers (`none`: dead), the requests, the reports in order, and the number of those active.
pub record Loop : Type 0 where
  pub workers : List (Option Worker)
  pub io : Io
  pub reports : List Report
  pub active : ℕ

abbrev pub one_active : Option Worker → ℕ
one_active none = 0
one_active (some w) = 1

-- The `for` loop of `main`, which resumes the workers that are not dead.
unfoldable pub resume_workers : List (Option Worker) → Io → Loop
resume_workers [] io = record { workers = []; io = io; reports = []; active = 0 }
resume_workers (none ∷ workers) io =
    let rest = resume_workers workers io in record rest { workers = none ∷ rest.workers }
resume_workers (some w ∷ workers) io =
    let r = io_worker w io in
    let rest = resume_workers workers r.1 in
    record {
      workers = r.0 ∷ rest.workers;
      io = rest.io;
      reports = r.2 ++ rest.reports;
      active = one_active r.0 + rest.active;
    }

-- The loop of `main`, for at most `fuel` rounds: the number of ticks and the reports.
unfoldable pub event_loop : (fuel : ℕ) → List (Option Worker) → Io → Option (ℕ × List Report)
event_loop zero workers io = none
event_loop (suc fuel) workers io =
    let l = resume_workers workers io in
    elim (event_loop fuel l.workers (io_tick l.io).1) [
      | none ↦ if ltb 0 l.active then none else some (l.io.global_tick, l.reports)
      | some end ↦
          if ltb 0 l.active
          then some (end.0, l.reports ++ end.1)
          else some (l.io.global_tick, l.reports)
    ]
