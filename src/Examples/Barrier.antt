-- ===== src/Examples/Barrier.antt =====
-- examples/barrier.c: a barrier that opens when the required number of coroutines has arrived.
pub mod Rendezvous
pub mod Progress
use c_coroutine.Base.{ℕ, ◌+◌, Option, none, some, ltb, ◌==◌, if◌then◌else◌, replicate}
use c_coroutine.Examples.Crowd.{Body, Crowd}

pub record CoBarrier : Type 0 where
  pub required : ℕ
  pub arrived : ℕ
  pub phase : ℕ

unfoldable pub cob_init : ℕ → CoBarrier
cob_init n_participants = record { required = n_participants; arrived = 0; phase = 0 }

-- `cob_wait` up to its first yield: `none` if it returns without one, and `my_phase` if not.
unfoldable pub cob_arrive : CoBarrier → Option ℕ × CoBarrier
cob_arrive b =
    if ltb (b.arrived + 1) b.required
    then (some b.phase, record b { arrived = b.arrived + 1 })
    else (none, record b { arrived = 0; phase = b.phase + 1 })

-- A worker before its call of `cob_wait`, and at the yield in it.
pub data Worker : Type 0 where
  fresh : Worker
  waiting : (my_phase : ℕ) → Worker

abbrev pub in_wait : Option ℕ → Option Worker
in_wait none = none
in_wait (some my_phase) = some (waiting my_phase)

-- A worker returns in the turn in which it passes the barrier.
unfoldable pub worker : Body Worker CoBarrier
worker fresh b = let r = cob_arrive b in (in_wait r.0, r.1)
worker (waiting my_phase) b =
    if b.phase == my_phase then (some (waiting my_phase), b) else (none, b)

-- `n` workers on a barrier for `n`, as `main` creates them.
unfoldable pub started : ℕ → Crowd Worker CoBarrier
started n = record { locals = replicate n (some fresh); shared = cob_init n }
