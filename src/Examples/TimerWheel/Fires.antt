-- ===== src/Examples/TimerWheel/Fires.antt =====
-- A timer of examples/timer_wheel.c from its start to its call.
use c_coroutine.Base.{
  ℕ, zero, suc, ◌+◌, ◌/◌, ◌%◌, ◌<◌, ◌≡◌, refl, ap, ◌∙◌, List, [], ◌∷◌, some, Bool, ◌&&◌, arith,
  ◌==◌, ==_self, if◌then◌else◌, length, get_or, set, inl, inr, length-set, ℕ-cases,
}
use c_coroutine.Examples.TimerWheel.{
  wheel_slots, TimerEntry, Wheel, slot_of, timer_alloc, add_timer, walk, wheel_tick,
}
use c_coroutine.Examples.TimerWheel.Due.{due, in_slots, pending, calls, tick_fires_due}

-- The ticks that a timer waits: its delay, and one more turn of the wheel if 16 divides it.
abbrev pub wait_of : ℕ → ℕ
wait_of delay = if delay % wheel_slots == 0 then delay + wheel_slots else delay

due-wait_of :
    (tick delay : ℕ) → due tick (0 + slot_of (tick + delay)) (delay / wheel_slots) ≡ wait_of delay
due-wait_of tick delay = elim (ℕ-cases (delay % wheel_slots) 0) [
  | inl z ↦ ground arith
  | inr nz ↦ ground arith
]

abbrev pub one_if : Bool → ℕ
one_if b = if b then 1 else 0

slots-prepend :
    (cb k tick i j : ℕ) (t : TimerEntry) (slots : List (List TimerEntry))
    → j < length slots
    → in_slots cb k tick i (set slots j (t ∷ get_or slots j []))
      ≡ one_if (t.cb == cb && due tick (i + j) t.remaining_laps == k) + in_slots cb k tick i slots
slots-prepend cb k tick i j t [] h = absurd (omega arith)
slots-prepend cb k tick i zero t (slot ∷ slots) h =
    let e : i + 0 ≡ i = omega arith in rw e (omega arith)
slots-prepend cb k tick i (suc j) t (slot ∷ slots) h =
    let e : i + 1 + j ≡ i + suc j = omega arith in
    let r = slots-prepend cb k tick (i + 1) j t slots (omega arith) in
    let r' = ap (λ m. one_if (t.cb == cb && due tick m t.remaining_laps == k)) e in
    omega (arith, r, r')

-- What add_timer adds to the timers that are pending.
pub add_timer_lem :
    (delay cb : ℕ) (w : Wheel) (at : ℕ)
    → length w.g_wheel ≡ wheel_slots
    → timer_alloc w.g_pool 0 ≡ some at
    → ((add_timer delay cb w).0 ≡ some at)
      × ((other k : ℕ)
          → pending other k (add_timer delay cb w).1
            ≡ one_if (cb == other && wait_of delay == k) + pending other k w)
unfolding add_timer
add_timer_lem delay cb w at l e =
    rw (e, add_timer)
      (
        refl,
        λ other k.
            slots-prepend other k w.g_current_tick 0 (slot_of (w.g_current_tick + delay))
              (record { at = at; cb = cb; remaining_laps = delay / wheel_slots }) w.g_wheel
              (omega arith)
            ∙ ap (λ d. one_if (cb == other && d == k) + pending other k w)
                (due-wait_of w.g_current_tick delay),
      )

length-add :
    (delay cb : ℕ) (w : Wheel) (at : ℕ)
    → timer_alloc w.g_pool 0 ≡ some at
    → length (add_timer delay cb w).1.g_wheel ≡ length w.g_wheel
unfolding add_timer
length-add delay cb w at e =
    let slot = slot_of (w.g_current_tick + delay) in
    rw (e, add_timer)
      (length-set w.g_wheel slot (
        record { at = at; cb = cb; remaining_laps = delay / wheel_slots }
        ∷ get_or w.g_wheel slot []))

-- The wheel after `n` ticks.
abbrev pub ticks : ℕ → Wheel → Wheel
ticks zero w = w
ticks (suc n) w = ticks n (wheel_tick w).1

length-tick : (w : Wheel) → length (wheel_tick w).1.g_wheel ≡ length w.g_wheel
unfolding wheel_tick
length-tick w =
    let slot = slot_of (w.g_current_tick + 1) in
    length-set w.g_wheel slot (walk (get_or w.g_wheel slot []) w.g_pool).0

pub ticks-fire :
    (cb n : ℕ) (w : Wheel)
    → length w.g_wheel ≡ wheel_slots
    → calls cb (wheel_tick (ticks n w)).0 ≡ pending cb (n + 1) w
ticks-fire cb zero w l = (tick_fires_due cb 1 w l (omega arith)).0
ticks-fire cb (suc n) w l =
    ticks-fire cb n (wheel_tick w).1 (length-tick w ∙ l)
    ∙ (tick_fires_due cb (n + 1) w l (omega arith)).1
    ∙ (let e : n + 1 + 1 ≡ suc n + 1 = omega arith in ap (λ m. pending cb m w) e)

-- On a wheel of 16 slots with a free place in the pool and no timer for cb, after add_timer with a
-- delay, cb is fired by exactly one tick: the one with the number of the delay, or 16 later if 16
-- divides the delay.
pub fires_once :
    (delay cb n : ℕ) (w : Wheel) (at : ℕ)
    → length w.g_wheel ≡ wheel_slots
    → timer_alloc w.g_pool 0 ≡ some at
    → ((k : ℕ) → pending cb k w ≡ 0)
    → calls cb (wheel_tick (ticks n (add_timer delay cb w).1)).0 ≡ one_if (wait_of delay == n + 1)
fires_once delay cb n w at l e fresh =
    let (_, added) = add_timer_lem delay cb w at l e in
    ticks-fire cb n (add_timer delay cb w).1 (length-add delay cb w at e ∙ l)
    ∙ added cb (n + 1)
    ∙ rw (==_self cb, fresh (n + 1)) (omega arith)
