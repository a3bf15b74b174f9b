-- ===== src/Examples/Tests/Timer.antt =====
-- The theorems on the timer wheel at concrete inputs.
use c_coroutine.Base.{ℕ, ◌+◌, ◌≡◌, refl, some, arith, length, [], ◌∷◌, ◌==◌, ◌&&◌}
use c_coroutine.Examples.TimerWheel.{
  Wheel, wheel_init, timer_alloc, add_timer, walk, wheel_tick, heartbeat_cb, watchdog_cb,
  delayed_print_cb, main,
}
use c_coroutine.Examples.TimerWheel.Pool.{IsPooled, add, tick, wheel_after, places_in_use}
use c_coroutine.Examples.TimerWheel.Due.{pending, calls, tick_fires_due}
use c_coroutine.Examples.TimerWheel.Fires.{ticks, wait_of, one_if, add_timer_lem, fires_once}

abbrev started : Wheel
started = wheel_init

started_slots : length started.g_wheel ≡ 16
unfolding wheel_init
started_slots = refl

started_place : timer_alloc started.g_pool 0 ≡ some 0
unfolding wheel_init timer_alloc
started_place = refl

no_timers : (k : ℕ) → pending 7 k started ≡ 0
unfolding wheel_init
no_timers k = refl

add_timer_lem_test :
    ((add_timer 20 7 started).0 ≡ some 0)
    × ((other k : ℕ)
        → pending other k (add_timer 20 7 started).1
          ≡ one_if (7 == other && wait_of 20 == k) + pending other k started)
add_timer_lem_test = add_timer_lem 20 7 started 0 started_slots started_place

-- A delay of 16 fires at the tick 32, and not at the tick 16.
fires_once_example : calls 7 (wheel_tick (ticks 31 (add_timer 16 7 started).1)).0 ≡ 1
fires_once_example = fires_once 16 7 31 started 0 started_slots started_place no_timers

not_at_sixteen : calls 7 (wheel_tick (ticks 15 (add_timer 16 7 started).1)).0 ≡ 0
not_at_sixteen = fires_once 16 7 15 started 0 started_slots started_place no_timers

abbrev two_timers : Wheel
two_timers = (add_timer 1 9 (add_timer 5 7 started).1).1

two_timers_slots : length two_timers.g_wheel ≡ 16
unfolding wheel_init timer_alloc add_timer
two_timers_slots = refl

tick_fires_due_test :
    (calls 9 (wheel_tick two_timers).0 ≡ pending 9 1 two_timers)
    × (pending 9 4 (wheel_tick two_timers).1 ≡ pending 9 5 two_timers)
tick_fires_due_test = tick_fires_due 9 4 two_timers two_timers_slots (omega arith)

-- Each of the seven timers of the example fires within its fifteen ticks.
main_calls :
    main.0
    ≡ []
      ∷ []
      ∷ (heartbeat_cb 1 ∷ [])
      ∷ (watchdog_cb ∷ [])
      ∷ (heartbeat_cb 2 ∷ [])
      ∷ []
      ∷ (delayed_print_cb 1 ∷ [])
      ∷ (heartbeat_cb 3 ∷ [])
      ∷ []
      ∷ (watchdog_cb ∷ [])
      ∷ []
      ∷ (delayed_print_cb 2 ∷ [])
      ∷ []
      ∷ []
      ∷ []
      ∷ []
unfolding main wheel_tick walk wheel_init timer_alloc add_timer
main_calls = refl

-- Its places are free again in the end.
main_frees : main.1.g_pool ≡ wheel_init.g_pool
unfolding main wheel_tick walk wheel_init timer_alloc add_timer
main_frees = refl

places_in_use_example : IsPooled (wheel_after (add 2 7 ∷ add 1 9 ∷ tick ∷ add 3 8 ∷ []) wheel_init)
places_in_use_example = places_in_use (add 2 7 ∷ add 1 9 ∷ tick ∷ add 3 8 ∷ [])
