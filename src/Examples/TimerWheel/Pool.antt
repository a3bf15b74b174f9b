-- ===== src/Examples/TimerWheel/Pool.antt =====
-- The places of the pool of examples/timer_wheel.c and the entries in the lists of the wheel.
use c_coroutine.Base.{
  ℕ, zero, suc, ◌+◌, ◌/◌, ◌≤◌, ◌<◌, ◌≡◌, refl, sym, ap, ◌∙◌, List, [], ◌∷◌, some, Option-cases,
  Bool, true, false, Bool-cases, ℕ-cases, inl, inr, arith, ◌==◌, ltb, length, get_or, set,
  length-set, get_or-set_self, get_or-set_ne, replicate,
}
use c_coroutine.Examples.TimerWheel.{
  wheel_slots, max_timers, TimerEntry, Wheel, wheel_init, slot_of, timer_alloc, add_timer, walk,
  wheel_tick,
}
use c_coroutine.Examples.TimerWheel.Fires.{one_if}

-- How many entries of a list, and of some lists, have the place `a`.
abbrev pub placed_at : ℕ → List TimerEntry → ℕ
placed_at a [] = 0
placed_at a (t ∷ slot) = one_if (t.at == a) + placed_at a slot

abbrev pub placed_in : ℕ → List (List TimerEntry) → ℕ
placed_in a [] = 0
placed_in a (slot ∷ slots) = placed_at a slot + placed_in a slots

abbrev pub active_at : ℕ → List Bool → ℕ
active_at a pool = one_if (get_or pool a false)

-- Each active place is that of one entry of the wheel, and each other place that of none.
pub record IsPooled (w : Wheel) : Type 0 where
  pub slots : length w.g_wheel ≡ wheel_slots
  pub places : (a : ℕ) → placed_in a w.g_wheel ≡ active_at a w.g_pool

-- What is done to a wheel.
pub data WheelOp : Type 0 where
  add : (delay cb : ℕ) → WheelOp
  tick : WheelOp

abbrev pub apply_op : WheelOp → Wheel → Wheel
apply_op (add delay cb) w = (add_timer delay cb w).1
apply_op tick w = (wheel_tick w).1

abbrev pub wheel_after : List WheelOp → Wheel → Wheel
wheel_after [] w = w
wheel_after (op ∷ ops) w = wheel_after ops (apply_op op w)

placed_in-set :
    (a j : ℕ) (new : List TimerEntry) (slots : List (List TimerEntry))
    → j < length slots
    → placed_in a (set slots j new) + placed_at a (get_or slots j [])
      ≡ placed_in a slots + placed_at a new
placed_in-set a j new [] h = absurd (omega arith)
placed_in-set a zero new (slot ∷ slots) h = omega arith
placed_in-set a (suc j) new (slot ∷ slots) h =
    omega (arith, placed_in-set a j new slots (omega arith))

placed_at-le :
    (a j : ℕ) (slots : List (List TimerEntry)) → placed_at a (get_or slots j []) ≤ placed_in a slots
placed_at-le a j [] = omega arith
placed_at-le a zero (slot ∷ slots) = omega arith
placed_at-le a (suc j) (slot ∷ slots) = omega (arith, placed_at-le a j slots)

active_at-le : (a : ℕ) (pool : List Bool) → active_at a pool ≤ 1
active_at-le a pool = elim (Bool-cases (get_or pool a false)) [
  | inl on ↦ rw on (omega arith)
  | inr off ↦ rw off (omega arith)
]

-- Clearing a place.
get_or-cleared : (a : ℕ) (pool : List Bool) → get_or (set pool a false) a false ≡ false
get_or-cleared a [] = refl
get_or-cleared zero (b ∷ pool) = refl
get_or-cleared (suc a) (b ∷ pool) = get_or-cleared a pool

-- The place that timer_alloc finds is one of the pool, and is not active.
timer_alloc-inactive :
    (pool : List Bool) (i at : ℕ)
    → timer_alloc pool i ≡ some at
    → (k : ℕ) × (at ≡ i + k) × (k < length pool) × (get_or pool k false ≡ false)
unfolding timer_alloc
timer_alloc-inactive [] i at e = cc e
timer_alloc-inactive (false ∷ pool) i at e = (0, ground (arith, e), omega arith, refl)
timer_alloc-inactive (true ∷ pool) i at e =
    let (k, here, inside, off) = timer_alloc-inactive pool (i + 1) at e in
    (suc k, omega (arith, here), omega (arith, inside), off)

-- A walk takes as many entries of a place off the list as it clears of the pool.
walk-placed :
    (a : ℕ) (slot : List TimerEntry) (pool : List Bool)
    → placed_at a slot ≤ active_at a pool
    → active_at a (walk slot pool).2 + placed_at a slot
      ≡ active_at a pool + placed_at a (walk slot pool).0
unfolding walk
walk-placed a [] pool h = refl
walk-placed a (t ∷ slot) pool h = elim (Bool-cases (ltb 0 t.remaining_laps)) [
  | inl stays ↦
      let later = walk-placed a slot pool (omega (arith, h)) in
      rw (stays, walk) (omega (arith, later))
  | inr fires ↦ elim (ℕ-cases t.at a) [
    | inl here ↦
        let test : (t.at == a) ≡ true = ground arith in
        let off : active_at a (set pool t.at false) ≡ 0 =
          ap (λ p. active_at a (set pool p false)) here ∙ ap one_if (get_or-cleared a pool) in
        let counted : one_if (t.at == a) ≡ 1 = ap one_if test in
        let most = active_at-le a pool in
        let later = walk-placed a slot (set pool t.at false) (omega (arith, h, most, counted)) in
        rw (fires, walk) (omega (arith, later, off, h, most, counted))
    | inr apart ↦
        let test : (t.at == a) ≡ false = ground arith in
        let same : active_at a (set pool t.at false) ≡ active_at a pool =
          ap one_if (get_or-set_ne pool t.at a false false apart) in
        let counted : one_if (t.at == a) ≡ 0 = ap one_if test in
        let later = walk-placed a slot (set pool t.at false) (omega (arith, h, same)) in
        rw (fires, walk) (omega (arith, later, same, counted))
  ]
]

add_timer-IsPooled : (delay cb : ℕ) (w : Wheel) → IsPooled w → IsPooled (add_timer delay cb w).1
unfolding add_timer
add_timer-IsPooled delay cb w p = elim (Option-cases (timer_alloc w.g_pool 0)) [
  | inl e ↦ rw (e, add_timer) p
  | inr (at, e) ↦
      let (k, found, inside, off) = timer_alloc-inactive w.g_pool 0 at e in
      let same : at ≡ k = omega (arith, found) in
      let slot = slot_of (w.g_current_tick + delay) in
      let entry : TimerEntry = record { at = at; cb = cb; remaining_laps = delay / wheel_slots } in
      rw (e, add_timer)
        (record {
          slots = length-set w.g_wheel slot (entry ∷ get_or w.g_wheel slot []) ∙ p.slots;
          places = λ a.
              let total =
                placed_in-set a slot (entry ∷ get_or w.g_wheel slot []) w.g_wheel
                  (omega (arith, p.slots)) in
              let before = p.places a in
              elim (ℕ-cases at a) [
                | inl here ↦
                    let on : active_at a (set w.g_pool at true) ≡ 1 =
                      ap (λ i. active_at i (set w.g_pool at true)) (sym here)
                      ∙ ap one_if
                          (get_or-set_self w.g_pool at true false (omega (arith, inside, same))) in
                    let out : active_at a w.g_pool ≡ 0 =
                      ap (λ i. active_at i w.g_pool) (sym here ∙ same) ∙ ap one_if off in
                    let test : (at == a) ≡ true = ground arith in
                    let counted : one_if (at == a) ≡ 1 = ap one_if test in
                    omega (arith, total, before, on, out, counted)
                | inr apart ↦
                    let keeps : active_at a (set w.g_pool at true) ≡ active_at a w.g_pool =
                      ap one_if (get_or-set_ne w.g_pool at a true false apart) in
                    let test : (at == a) ≡ false = ground arith in
                    let counted : one_if (at == a) ≡ 0 = ap one_if test in
                    omega (arith, total, before, keeps, counted)
              ];
        })
]

wheel_tick-IsPooled : (w : Wheel) → IsPooled w → IsPooled (wheel_tick w).1
unfolding wheel_tick
wheel_tick-IsPooled w p =
    let slot = slot_of (w.g_current_tick + 1) in
    let walked = walk (get_or w.g_wheel slot []) w.g_pool in
    record {
      slots = length-set w.g_wheel slot walked.0 ∙ p.slots;
      places = λ a.
          let total = placed_in-set a slot walked.0 w.g_wheel (omega (arith, p.slots)) in
          let before = p.places a in
          let fits = placed_at-le a slot w.g_wheel in
          let cleared =
            walk-placed a (get_or w.g_wheel slot []) w.g_pool (omega (arith, fits, before)) in
          omega (arith, total, before, cleared);
    }

apply_op-IsPooled : (op : WheelOp) (w : Wheel) → IsPooled w → IsPooled (apply_op op w)
apply_op-IsPooled (add delay cb) w p = add_timer-IsPooled delay cb w p
apply_op-IsPooled tick w p = wheel_tick-IsPooled w p

get_or-unused : (n a : ℕ) → get_or (replicate n false) a false ≡ false
get_or-unused zero a = refl
get_or-unused (suc n) zero = refl
get_or-unused (suc n) (suc a) = get_or-unused n a

wheel_init-IsPooled : IsPooled wheel_init
unfolding wheel_init
wheel_init-IsPooled = record {
  slots = refl;
  places = λ a. sym (ap one_if (get_or-unused max_timers a));
}

ops-IsPooled : (ops : List WheelOp) (w : Wheel) → IsPooled w → IsPooled (wheel_after ops w)
ops-IsPooled [] w p = p
ops-IsPooled (op ∷ ops) w p = ops-IsPooled ops (apply_op op w) (apply_op-IsPooled op w p)

-- After any sequence of add_timer and wheel_tick on a new wheel, the wheel has 16 slots, and a
-- place of the pool is active if and only if an entry in a slot has it; no two entries share one.
pub places_in_use : (ops : List WheelOp) → IsPooled (wheel_after ops wheel_init)
places_in_use ops = ops-IsPooled ops wheel_init wheel_init-IsPooled
