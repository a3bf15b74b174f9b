-- ===== src/Examples/OnScheduler.antt =====
-- Coroutines with one body that only call `co_yield` and return, as the examples have them, run by
-- co_run of src/coroutine.c.
pub mod Locals
pub mod Turns
pub mod Launch
pub mod Meeting
use c_coroutine.Base.{ℕ, zero, suc, List, [], ◌∷◌, Bool, Option, none, some, if◌then◌else◌}
use c_coroutine.Runtime.Types.{Ptr, done, is_state, Coroutine, World, ok}
use c_coroutine.Runtime.Spec.{View}
use c_coroutine.Runtime.Refine.Defs.{view}
use c_coroutine.Runtime.Machine.{Request, return, yield, Program, step}
use c_coroutine.Examples.Crowd.{Crowd, Body}

module _ {L U : Type 0} where
  abbrev pub request : Option L × U → Request L U
  request r = elim r.0 [ none ↦ return r.1 | some l ↦ yield l r.1 ]

  -- The program whose coroutines all have the body; `enter` is what a new one keeps.
  abbrev pub program : (ℕ → ℕ → L) → Body L U → Program L U
  program enter body = record { enter = enter; next = λ l u. request (body l u) }

  -- The shared memory and the state after `n` steps of co_run, or at its end.
  unfoldable pub after : Program L U → ℕ → U → World L → U × World L
  after P zero u w = (u, w)
  after P (suc n) u w = elim (step P u w) [ ok (some u') w' ↦ after P n u' w' | _ ↦ (u, w) ]

module _ {L : Type 0} where
  -- What a coroutine keeps, `none` once it is done.
  abbrev pub local_of : Option (Coroutine L) → Option L
  local_of none = none
  local_of (some c) = if is_state c.state done then none else some c.ctx

  abbrev pub locals_of : (Ptr → Option (Coroutine L)) → List Ptr → List (Option L)
  locals_of cell [] = []
  locals_of cell (p ∷ ps) = local_of (cell p) ∷ locals_of cell ps

module _ {L U : Type 0} where
  -- The registered coroutines, in the order of their creation, and the shared memory.
  abbrev pub crowd_of : U → View L → Crowd L U
  crowd_of u v = record { locals = locals_of v.cell v.registered; shared = u }
