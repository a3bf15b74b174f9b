-- ===== src/Runtime/Machine/Effects.antt =====
-- What one step of `co_run` does to the view of the scheduler, and which calls are allowed.
use c_coroutine.Base.{
  ◌<◌, ◌≡◌, ◌≢◌, Bool, true, false, ◌||◌, Option, none, some, length, has, ◌==◌, if◌then◌else◌,
}
use c_coroutine.Runtime.Types.{null, CoState, done, is_state, max_coroutines, Coroutine}
use c_coroutine.Runtime.Spec.{View, write_cell, yield_view, await_view, finish_view, create_view}
use c_coroutine.Runtime.Machine.{
  Request, return, yield, await, create, free, ask_id, ask_state, Program,
}

module _ {L : Type 0} where
  -- The running coroutine `c` is at `l`.
  abbrev pub save : Coroutine L → L → View L → View L
  save c l v = write_cell v.running (record c { ctx = l }) v

  abbrev pub is_done_at : Option (Coroutine L) → Bool
  is_done_at none = false
  is_done_at (some o) = is_state o.state done

  abbrev pub ask_at : Option (Coroutine L) → CoState
  ask_at none = done
  ask_at (some o) = o.state

module _ {L U : Type 0} where
  -- The shared memory after a call.
  abbrev pub memory : Request L U → U
  memory (return u) = u
  memory (yield l u) = u
  memory (await p l u) = u
  memory (create co_mem stack_mem fn arg stack_size k u) = u
  memory (free p l u) = u
  memory (ask_id k u) = u
  memory (ask_state p k u) = u

  abbrev pub effect : Program L U → Coroutine L → Request L U → View L → View L
  effect P c (return u) v = finish_view v.running c v
  effect P c (yield l u) v = yield_view v.running (record c { ctx = l }) (save c l v)
  effect P c (await p l u) v =
      if is_done_at ((save c l v).cell p)
      then save c l v
      else await_view v.running (record c { ctx = l }) p (save c l v)
  effect P c (create co_mem stack_mem fn arg stack_size k u) v =
      if (co_mem == null) || (stack_mem == null)
      then save c (k null) v
      else save c (k co_mem) (create_view co_mem stack_mem fn arg stack_size (P.enter fn arg) v)
  effect P c (free p l u) v = v
  effect P c (ask_id k u) v = save c (k c.id) v
  effect P c (ask_state p k u) v = save c (k (ask_at (v.cell p))) v

  -- What the header asks of the caller. A handle is one that `co_create` returned, and `calloc`
  -- answers with null or with memory that is not in use. Freeing is left to the end of the run.
  abbrev pub Allowed : View L → Request L U → Type 0
  Allowed v (return u) = Unit
  Allowed v (yield l u) = Unit
  Allowed v (await p l u) = has p v.registered ≡ true
  Allowed v (create co_mem stack_mem fn arg stack_size k u) =
      (fn ≢ 0) × (length v.registered < max_coroutines) × (v.cell co_mem ≡ none)
  Allowed v (free p l u) = ⊥
  Allowed v (ask_id k u) = Unit
  Allowed v (ask_state p k u) = has p v.registered ≡ true
