-- ===== src/Runtime/Invariant/Defs.antt =====
-- The well-formedness invariant of the scheduler of src/coroutine.c, over its view.
use c_coroutine.Base.{◌≤◌, ◌≡◌, ◌≢◌, true, false, Option, none, some, length, has, Distinct}
use c_coroutine.Runtime.Types.{
  Ptr, null, CoState, ready, running, waiting, done, max_coroutines, Coroutine,
}
use c_coroutine.Runtime.Spec.{View}

module _ {L : Type 0} where
  abbrev pub state_at : Option (Coroutine L) → Option CoState
  state_at none = none
  state_at (some c) = some c.state

  abbrev pub awaits_at : Option (Coroutine L) → Ptr
  awaits_at none = null
  awaits_at (some c) = c.awaiting

  pub record IsConsistent (v : View L) : Type 0 where
    -- the registry
    pub distinct : Distinct v.registered
    pub few : length v.registered ≤ max_coroutines
    pub not_null : has null v.registered ≡ false
    pub allocated : (a : Ptr) → has a v.registered ≡ true → state_at (v.cell a) ≢ none
    -- the queue holds exactly the coroutines that are ready, each once
    pub queue_distinct : Distinct v.queue
    pub queued :
        (a : Ptr)
        → has a v.queue ≡ true
        → (has a v.registered ≡ true) × (state_at (v.cell a) ≡ some ready)
    pub ready_queued :
        (a : Ptr)
        → has a v.registered ≡ true
        → state_at (v.cell a) ≡ some ready
        → has a v.queue ≡ true
    -- at most one coroutine runs, the one that the scheduler names
    pub runs :
        v.running ≢ null
        → (has v.running v.registered ≡ true) × (state_at (v.cell v.running) ≡ some running)
    pub only_runs :
        (a : Ptr) → has a v.registered ≡ true → state_at (v.cell a) ≡ some running → a ≡ v.running
    -- no lost wakeup: what a suspended coroutine waits for is registered and not done
    pub waits :
        (a : Ptr)
        → has a v.registered ≡ true
        → state_at (v.cell a) ≡ some waiting
        → (has (awaits_at (v.cell a)) v.registered ≡ true)
          × (state_at (v.cell (awaits_at (v.cell a))) ≢ some done)
    pub idle :
        (a : Ptr)
        → has a v.registered ≡ true
        → state_at (v.cell a) ≢ some waiting
        → awaits_at (v.cell a) ≡ null
