-- ===== src/Runtime/Machine.antt =====
-- The loop of `co_run` in src/coroutine.c, interleaved with the code of the coroutines. What a
-- coroutine does between two calls of the library is a parameter: a function from its suspended
-- computation and the memory that the coroutines share to its next call.
pub mod Effects
pub mod Good
pub mod Refine
pub mod Calls
pub mod Safety
pub mod Potential
pub mod Spending
pub mod Termination
pub mod Order
pub mod Settled
pub mod Unsuspended
use c_coroutine.Base.{ℕ, zero, suc, ◌==◌, if◌then◌else◌, Option, none, some}
use c_coroutine.Runtime.Types.{
  Ptr, null, CoState, World, Assertion, Outcome, ok, failed, fault, M, pure, ◌>>=◌, ◌>>◌, get, load,
  store,
}
use c_coroutine.Runtime.Ops.{
  co_entry, co_create, co_free, co_run_round, co_yield, co_await, co_id, co_state,
}

-- A call of the library, with the computation that it returns to and the shared memory.
-- A creation carries the addresses that `calloc` and `malloc` answer with.
pub data Request (L U : Type 0) : Type 0 where
  return : U → Request L U
  yield : L → U → Request L U
  await : Ptr → L → U → Request L U
  create : (co_mem stack_mem fn arg stack_size : ℕ) → (Ptr → L) → U → Request L U
  free : Ptr → L → U → Request L U
  ask_id : (ℕ → L) → U → Request L U
  ask_state : Ptr → (CoState → L) → U → Request L U

pub record Program (L U : Type 0) : Type 0 where
  pub enter : (fn arg : ℕ) → L
  pub next : L → U → Request L U

pub data End (L U : Type 0) : Type 0 where
  returned : World L → U → End L U
  stopped : Assertion → End L U
  crashed : End L U
  out_of_fuel : End L U

-- The running coroutine goes on to its next call.
unfoldable pub advance : {L : Type 0} → L → M L (Unit {0})
unfolding load store
advance l = do w ← get; c ← load w.running; store w.running (record c { ctx = l })

module _ {L U : Type 0} (P : Program L U) where
  unfoldable pub perform : Request L U → M L U
  perform (return u) = do w ← get; co_entry w.running; pure u
  perform (yield l u) = do advance l; co_yield; pure u
  perform (await p l u) = do advance l; co_await p; pure u
  perform (create co_mem stack_mem fn arg stack_size k u) = do
    p ← co_create co_mem stack_mem fn arg stack_size (P.enter fn arg)
    advance (k p)
    pure u
  perform (free p l u) = do co_free p; advance l; pure u
  perform (ask_id k u) = do i ← co_id; advance (k i); pure u
  perform (ask_state p k u) = do s ← co_state p; advance (k s); pure u

  -- The scheduler picks a coroutine, or the running coroutine makes its next call; `none` when
  -- the loop of `co_run` ends.
  unfoldable pub step : U → M L (Option U)
  step u = do
    w ← get
    if w.running == null
        then (do more ← co_run_round; pure (if more then some u else none))
        else do c ← load w.running; u' ← perform (P.next c.ctx u); pure (some u')

  -- `co_run`, for at most `fuel` steps.
  unfoldable pub co_run : ℕ → U → World L → End L U
  co_run zero u w = out_of_fuel
  co_run (suc fuel) u w = elim (step u w) [
    | ok (some u') w' ↦ co_run fuel u' w'
    | ok none w' ↦ returned w' u
    | failed e ↦ stopped e
    | fault ↦ crashed
  ]
