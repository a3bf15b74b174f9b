-- ===== src/Examples/TimerCoroutine.antt =====
-- examples/timer_coroutine.c: timers as coroutines that count down, one tick at each turn.
pub mod Due
pub mod Firings
use c_coroutine.Base.{
  ℕ, zero, suc, ◌+◌, ◌-◌, List, [], ◌∷◌, ◌++◌, Option, none, some, ltb, if◌then◌else◌,
}
use c_coroutine.Examples.Crowd.{Body, Crowd}

-- `timer_cfg_t`, with a number for the name.
pub record TimerCfg : Type 0 where
  pub name : ℕ
  pub ticks : ℕ
  pub period : ℕ

-- A coroutine between two turns, at the test of its inner loop.
pub record Timer : Type 0 where
  pub cfg : TimerCfg
  pub remaining : ℕ

-- The names of the timers in the order in which they fire.
abbrev pub Fired : Type 0
Fired = List ℕ

-- One tick: from the body of the inner loop to its test. A timer that has fired goes on with the
-- body at once, since its period is not 0.
abbrev pub tick : TimerCfg → ℕ → Option Timer
tick cfg remaining = some (record { cfg = cfg; remaining = remaining - 1 })

unfoldable pub timer_coroutine : Body Timer Fired
timer_coroutine t fired =
    if ltb 0 t.remaining
    then (tick t.cfg t.remaining, fired)
    else (if ltb 0 t.cfg.period then tick t.cfg t.cfg.period else none, fired ++ (t.cfg.name ∷ []))

-- A coroutine for each timer, as `main` creates them.
abbrev pub coroutines : List TimerCfg → List (Option Timer)
coroutines [] = []
coroutines (cfg ∷ cfgs) = some (record { cfg = cfg; remaining = cfg.ticks }) ∷ coroutines cfgs

unfoldable pub started : List TimerCfg → Crowd Timer Fired
started cfgs = record { locals = coroutines cfgs; shared = [] }

abbrev pub main_timers : List TimerCfg
main_timers =
    record { name = 0; ticks = 2; period = 2 }
    ∷ record { name = 1; ticks = 5; period = 0 }
    ∷ record { name = 2; ticks = 3; period = 3 }
    ∷ []
