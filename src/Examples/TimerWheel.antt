-- ===== src/Examples/TimerWheel.antt =====
-- examples/timer_wheel.c: one-shot timers in sixteen lists, of which each tick walks one.
-- The list that links the entries of a slot is a list of the entries, each with its place in the
-- pool; the pool keeps which places are active. The callbacks do not touch the wheel, as those of
-- the example; a tick answers with those that it hands to `co_create`, in order.
pub mod Due
pub mod Fires
pub mod Pool
use c_coroutine.Base.{
  ℕ, zero, suc, ◌+◌, ◌-◌, ◌/◌, ◌%◌, List, [], ◌∷◌, Option, none, some, Bool, true, false, get_or,
  set, replicate, ltb, if◌then◌else◌,
}

abbrev pub wheel_slots : ℕ
wheel_slots = 16

abbrev pub max_timers : ℕ
max_timers = 64

-- `cb` stands for the callback and its argument.
pub record TimerEntry : Type 0 where
  pub at : ℕ
  pub cb : ℕ
  pub remaining_laps : ℕ

pub record Wheel : Type 0 where
  pub g_pool : List Bool
  pub g_wheel : List (List TimerEntry)
  pub g_current_tick : ℕ

unfoldable pub wheel_init : Wheel
wheel_init = record {
  g_pool = replicate max_timers false;
  g_wheel = replicate wheel_slots [];
  g_current_tick = 0;
}

-- The loop of `timer_alloc`: the first place from `i` on that is not active.
unfoldable pub timer_alloc : List Bool → (i : ℕ) → Option ℕ
timer_alloc [] i = none
timer_alloc (false ∷ pool) i = some i
timer_alloc (true ∷ pool) i = timer_alloc pool (i + 1)

abbrev pub slot_of : ℕ → ℕ
slot_of tick = tick % wheel_slots

-- The wheel with the timer at place `at` of the pool.
abbrev pub prepend : (at delay cb : ℕ) → Wheel → Wheel
prepend at delay cb w =
    let slot = slot_of (w.g_current_tick + delay) in
    record {
      g_pool = set w.g_pool at true;
      g_wheel = set w.g_wheel slot (
          record { at = at; cb = cb; remaining_laps = delay / wheel_slots }
          ∷ get_or w.g_wheel slot []);
      g_current_tick = w.g_current_tick;
    }

-- The place of the timer; `none` if the pool is exhausted, which leaves the wheel as it is.
unfoldable pub add_timer : (delay cb : ℕ) → Wheel → Option ℕ × Wheel
add_timer delay cb w = elim (timer_alloc w.g_pool 0) [
  | none ↦ (none, w)
  | some at ↦ (some at, prepend at delay cb w)
]

-- The loop of `wheel_tick`: the entries that stay in the slot, those that are fired, and the pool.
unfoldable pub walk : List TimerEntry → List Bool → List TimerEntry × List TimerEntry × List Bool
walk [] pool = ([], [], pool)
walk (t ∷ slot) pool =
    let kept = walk slot pool in
    let fired = walk slot (set pool t.at false) in
    if ltb 0 t.remaining_laps
    then (record t { remaining_laps = t.remaining_laps - 1 } ∷ kept.0, kept.1, kept.2)
    else (fired.0, t ∷ fired.1, fired.2)

-- The fired entries, and the wheel after the tick.
unfoldable pub wheel_tick : Wheel → List TimerEntry × Wheel
wheel_tick w =
    let tick = w.g_current_tick + 1 in
    let walked = walk (get_or w.g_wheel (slot_of tick) []) w.g_pool in
    (
      walked.1,
      record {
        g_pool = walked.2;
        g_wheel = set w.g_wheel (slot_of tick) walked.0;
        g_current_tick = tick;
      },
    )

-- The callbacks of the example with their arguments, by number.
abbrev pub heartbeat_cb : (id : ℕ) → ℕ
heartbeat_cb id = 10 + id

abbrev pub watchdog_cb : ℕ
watchdog_cb = 20

abbrev pub delayed_print_cb : (msg : ℕ) → ℕ
delayed_print_cb msg = 30 + msg

-- The delays and callbacks that `main` adds, in order.
abbrev pub main_timers : List (ℕ × ℕ)
main_timers =
    (3, heartbeat_cb 1)
    ∷ (5, heartbeat_cb 2)
    ∷ (8, heartbeat_cb 3)
    ∷ (4, watchdog_cb)
    ∷ (10, watchdog_cb)
    ∷ (7, delayed_print_cb 1)
    ∷ (12, delayed_print_cb 2)
    ∷ []

abbrev pub add_all : List (ℕ × ℕ) → Wheel → Wheel
add_all [] w = w
add_all ((delay, cb) ∷ timers) w = add_all timers (add_timer delay cb w).1

abbrev pub callbacks : List TimerEntry → List ℕ
callbacks [] = []
callbacks (t ∷ fired) = t.cb ∷ callbacks fired

-- What each of `n` ticks calls, and the wheel after them.
abbrev pub run_ticks : ℕ → Wheel → List (List ℕ) × Wheel
run_ticks zero w = ([], w)
run_ticks (suc n) w =
    let (fired, ticked) = wheel_tick w in
    let (later, last) = run_ticks n ticked in (callbacks fired ∷ later, last)

unfoldable pub main : List (List ℕ) × Wheel
main = run_ticks 15 (add_all main_timers wheel_init)
