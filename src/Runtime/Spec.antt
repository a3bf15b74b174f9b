-- ===== src/Runtime/Spec.antt =====
-- What the scheduler promises, without its arrays: the coroutines ever created, in order, a
-- first-in first-out list of those that are ready, the one that runs, and the objects.
use c_coroutine.Base.{
  ℕ, ◌+◌, List, [], ◌∷◌, ◌++◌, if◌then◌else◌, Bool, false, Option, none, some, length, has, keep,
  ◌==◌, ◌&&◌,
}
use c_coroutine.Runtime.Types.{
  Ptr, null, ready, running, waiting, done, is_state, default_stack_size, Coroutine, update,
}

pub record View (L : Type 0) : Type 0 where
  pub registered : List Ptr
  pub queue : List Ptr
  pub running : Ptr
  pub cell : Ptr → Option (Coroutine L)
  pub stacks : Ptr → Option ℕ

abbrev pub size_or_default : ℕ → ℕ
size_or_default size = if size == 0 then default_stack_size else size

module _ {L : Type 0} where
  abbrev pub suspended_on : Ptr → Coroutine L → Bool
  suspended_on finished c = is_state c.state waiting && (c.awaiting == finished)

  abbrev pub made_ready : Coroutine L → Coroutine L
  made_ready c = record c { state = ready; awaiting = null }

  abbrev pub waits_at : Ptr → Option (Coroutine L) → Bool
  waits_at finished none = false
  waits_at finished (some c) = suspended_on finished c

  -- The coroutine at `a` is suspended until `finished` is done.
  abbrev pub is_waiter : (Ptr → Option (Coroutine L)) → Ptr → Ptr → Bool
  is_waiter cell finished a = waits_at finished (cell a)

  abbrev pub wake_if : Ptr → Option (Coroutine L) → Option (Coroutine L)
  wake_if finished none = none
  wake_if finished (some c) = some (if suspended_on finished c then made_ready c else c)

  -- Every waiter in the list is made ready.
  abbrev pub wake_cells : Ptr → List Ptr → (Ptr → Option (Coroutine L)) → Ptr → Option (Coroutine L)
  wake_cells finished ps cell a = if has a ps then wake_if finished (cell a) else cell a

  -- The waiters among `ps` are queued in the order of that list.
  abbrev pub wake_view : Ptr → List Ptr → View L → View L
  wake_view finished ps v = record v {
    queue = v.queue ++ keep (is_waiter v.cell finished) ps;
    cell = wake_cells finished ps v.cell;
  }

  -- All waiters, in the order of their creation.
  abbrev pub wake : Ptr → View L → View L
  wake finished v = wake_view finished v.registered v

  abbrev pub write_cell : Ptr → Coroutine L → View L → View L
  write_cell p c v = record v { cell = update v.cell p (some c) }

  abbrev pub stop_running : View L → View L
  stop_running v = record v { running = null }

  abbrev pub finish_view : Ptr → Coroutine L → View L → View L
  finish_view p c v = stop_running (wake p (write_cell p (record c { state = done }) v))

  abbrev pub yield_view : Ptr → Coroutine L → View L → View L
  yield_view p c v = record v {
    queue = v.queue ++ (p ∷ []);
    running = null;
    cell = update v.cell p (some (record c { state = ready }));
  }

  abbrev pub await_view : Ptr → Coroutine L → Ptr → View L → View L
  await_view p c other v =
      stop_running (write_cell p (record c { state = waiting; awaiting = other }) v)

  -- The coroutine at the head of the queue is taken off it and runs.
  abbrev pub resume_view : Ptr → Coroutine L → List Ptr → View L → View L
  resume_view p c rest v = record v {
    queue = rest;
    running = p;
    cell = update v.cell p (some (record c { state = running }));
  }

  abbrev pub fresh : (id : ℕ) (stack_mem : Ptr) (fn arg stack_size : ℕ) → L → Coroutine L
  fresh id stack_mem fn arg stack_size entry = record {
    id = id;
    state = ready;
    fn = fn;
    arg = arg;
    stack = stack_mem;
    stack_size = size_or_default stack_size;
    awaiting = null;
    ctx = entry;
  }

  -- A new coroutine is numbered, registered and queued behind all others.
  abbrev pub create_view : (co_mem stack_mem : Ptr) (fn arg stack_size : ℕ) → L → View L → View L
  create_view co_mem stack_mem fn arg stack_size entry v = record v {
    registered = v.registered ++ (co_mem ∷ []);
    queue = v.queue ++ (co_mem ∷ []);
    cell =
        update v.cell co_mem
          (some (fresh (length v.registered + 1) stack_mem fn arg stack_size entry));
    stacks = update v.stacks stack_mem (some (size_or_default stack_size));
  }
