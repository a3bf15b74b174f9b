-- ===== src/Examples/TimerWheel/Due.antt =====
-- When the timers of examples/timer_wheel.c fire.
use c_coroutine.Base.{
  ℕ, zero, suc, ◌+◌, ◌*◌, ◌-◌, ◌%◌, ◌≤◌, ◌<◌, ◌≡◌, ◌≢◌, refl, List, [], ◌∷◌, Bool, true, false,
  ◌&&◌, arith, ltb, ◌==◌, if◌then◌else◌, length, get_or, set, Bool-cases, inl, inr,
}
use c_coroutine.Examples.TimerWheel.{wheel_slots, TimerEntry, Wheel, slot_of, walk, wheel_tick}

-- The ticks until an entry of slot `i` fires, after `tick` ticks.
abbrev pub due : (tick i laps : ℕ) → ℕ
due tick i laps = (i + 15 - tick % 16) % 16 + 1 + 16 * laps

-- How many entries of a slot are for callback `cb` and fire in `k` ticks.
abbrev pub in_slot : (cb k tick i : ℕ) → List TimerEntry → ℕ
in_slot cb k tick i [] = 0
in_slot cb k tick i (t ∷ slot) =
    (if t.cb == cb && due tick i t.remaining_laps == k then 1 else 0) + in_slot cb k tick i slot

-- The same over the slots from `i` on.
abbrev pub in_slots : (cb k tick i : ℕ) → List (List TimerEntry) → ℕ
in_slots cb k tick i [] = 0
in_slots cb k tick i (slot ∷ slots) = in_slot cb k tick i slot + in_slots cb k tick (i + 1) slots

-- How many timers for `cb` fire in `k` ticks, and how many of a list are for it.
abbrev pub pending : (cb k : ℕ) → Wheel → ℕ
pending cb k w = in_slots cb k w.g_current_tick 0 w.g_wheel

abbrev pub calls : ℕ → List TimerEntry → ℕ
calls cb [] = 0
calls cb (t ∷ slot) = (if t.cb == cb then 1 else 0) + calls cb slot

and_false : (b : Bool) → (b && false) ≡ false
and_false true = refl
and_false false = refl

and_true : (b : Bool) → (b && true) ≡ b
and_true true = refl
and_true false = refl

-- Every slot but the one of the next tick comes one tick nearer.
other-slot :
    (cb k tick i : ℕ) (slot : List TimerEntry)
    → i < 16
    → i ≢ slot_of (tick + 1)
    → in_slot cb k (tick + 1) i slot ≡ in_slot cb (k + 1) tick i slot
other-slot cb k tick i [] h ne = refl
other-slot cb k tick i (t ∷ slot) h ne =
    let nearer : due tick i t.remaining_laps ≡ due (tick + 1) i t.remaining_laps + 1 =
      omega arith in
    let same : (due (tick + 1) i t.remaining_laps == k) ≡ (due tick i t.remaining_laps == k + 1) =
      ground arith in
    rw (same, other-slot cb k tick i slot h ne) (omega arith)

other-slot_now :
    (cb tick i : ℕ) (slot : List TimerEntry)
    → i < 16
    → i ≢ slot_of (tick + 1)
    → in_slot cb 1 tick i slot ≡ 0
other-slot_now cb tick i [] h ne = refl
other-slot_now cb tick i (t ∷ slot) h ne =
    let later : (due tick i t.remaining_laps == 1) ≡ false = ground arith in
    rw (later, and_false (t.cb == cb), other-slot_now cb tick i slot h ne) (omega arith)

-- The slot of the next tick: what stays comes one tick nearer, and what fires was due.
walk_lem :
    (cb k tick s : ℕ) (slot : List TimerEntry) (pool : List Bool)
    → k ≢ 0
    → s ≡ slot_of (tick + 1)
    → (in_slot cb k (tick + 1) s (walk slot pool).0 ≡ in_slot cb (k + 1) tick s slot)
      × (calls cb (walk slot pool).1 ≡ in_slot cb 1 tick s slot)
unfolding walk
walk_lem cb k tick s [] pool nz e = (refl, refl)
walk_lem cb k tick s (t ∷ slot) pool nz e = elim (Bool-cases (ltb 0 t.remaining_laps)) [
  | inl stays ↦
      let (kept, fired) = walk_lem cb k tick s slot pool nz e in
      let same : (due (tick + 1) s (t.remaining_laps - 1) == k)
          ≡ (due tick s t.remaining_laps == k + 1) =
        ground (arith, stays) in
      let later : (due tick s t.remaining_laps == 1) ≡ false = ground (arith, stays) in
      (
        rw (stays, walk, same, kept) (omega arith),
        rw (stays, walk, later, and_false (t.cb == cb), fired) (omega arith),
      )
  | inr fires ↦
      let (kept, fired) = walk_lem cb k tick s slot (set pool t.at false) nz e in
      let later : (due tick s t.remaining_laps == k + 1) ≡ false = ground (arith, fires) in
      let now : (due tick s t.remaining_laps == 1) ≡ true = ground (arith, fires) in
      (
        rw (fires, walk, later, and_false (t.cb == cb), kept) (omega arith),
        rw (fires, walk, now, and_true (t.cb == cb), fired) (omega arith),
      )
]

later-slots :
    (cb k tick i : ℕ) (slots : List (List TimerEntry))
    → i + length slots ≤ 16
    → slot_of (tick + 1) < i
    → (in_slots cb k (tick + 1) i slots ≡ in_slots cb (k + 1) tick i slots)
      × (in_slots cb 1 tick i slots ≡ 0)
later-slots cb k tick i [] b later = (refl, refl)
later-slots cb k tick i (slot ∷ slots) b later =
    let (nearer, none_now) = later-slots cb k tick (i + 1) slots (omega arith) (omega arith) in
    (
      omega (arith, nearer, other-slot cb k tick i slot (omega arith) (omega arith)),
      omega (arith, none_now, other-slot_now cb tick i slot (omega arith) (omega arith)),
    )

-- From slot `i` on, with the slot of the next tick `j` places further.
slots-tick :
    (cb k tick i j : ℕ) (slots : List (List TimerEntry)) (pool : List Bool)
    → k ≢ 0
    → i + length slots ≤ 16
    → i + j ≡ slot_of (tick + 1)
    → j < length slots
    → let walked = walk (get_or slots j []) pool in
      (in_slots cb k (tick + 1) i (set slots j walked.0) ≡ in_slots cb (k + 1) tick i slots)
      × (calls cb walked.1 ≡ in_slots cb 1 tick i slots)
slots-tick cb k tick i j [] pool nz b e inside = absurd (omega arith)
slots-tick cb k tick i zero (slot ∷ slots) pool nz b e inside =
    let (nearer, none_now) = later-slots cb k tick (i + 1) slots (omega arith) (omega arith) in
    let (kept, fired) = walk_lem cb k tick i slot pool nz (omega arith) in
    (omega arith, omega arith)
slots-tick cb k tick i (suc j) (slot ∷ slots) pool nz b e inside =
    let (nearer, fired) =
      slots-tick cb k tick (i + 1) j slots pool nz (omega arith) (omega arith) (omega arith) in
    (
      omega (arith, nearer, other-slot cb k tick i slot (omega arith) (omega arith)),
      omega (arith, fired, other-slot_now cb tick i slot (omega arith) (omega arith)),
    )

-- On a wheel of 16 slots, a tick fires for each callback the timers whose time is one tick, and
-- those whose time is k + 1 ticks, k not being 0, are those whose time is k ticks after it.
pub tick_fires_due :
    (cb k : ℕ) (w : Wheel)
    → length w.g_wheel ≡ wheel_slots
    → k ≢ 0
    → (calls cb (wheel_tick w).0 ≡ pending cb 1 w)
      × (pending cb k (wheel_tick w).1 ≡ pending cb (k + 1) w)
unfolding wheel_tick
tick_fires_due cb k w l nz =
    let (nearer, fired) =
      slots-tick cb k w.g_current_tick 0 (slot_of (w.g_current_tick + 1)) w.g_wheel w.g_pool nz
        (omega arith) (omega arith) (omega arith) in
    (fired, nearer)
