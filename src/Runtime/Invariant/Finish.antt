-- ===== src/Runtime/Invariant/Finish.antt =====
-- The end of a coroutine, and the wakeup of those that wait for it, keep the invariant.
use c_coroutine.Base.{
  ◌≡◌, ◌≢◌, ◌++◌, List, true, false, some, Bool, Option, arith, has, keep, has-keep, has-append,
  Distinct-append, Distinct-keep, ◌&&◌, ◌||◌, Bool-cases, inl, inr,
}
use c_coroutine.Runtime.Types.{Ptr, null, ready, running, waiting, done, Coroutine, update}
use c_coroutine.Runtime.Spec.{View, finish_view, is_waiter, wake_cells}
use c_coroutine.Runtime.Invariant.Defs.{state_at, awaits_at, IsConsistent}

module _ {L : Type 0} {v : View L} (k : IsConsistent v) {c : Coroutine L} (ne : v.running ≢ null)
    (h : v.cell v.running ≡ some c) where
  abbrev before : Ptr → Option (Coroutine L)
  before = update v.cell v.running (some (record c { state = done }))

  abbrev after : Ptr → Option (Coroutine L)
  after = wake_cells v.running v.registered before

  abbrev waits_here : Ptr → Bool
  waits_here = is_waiter before v.running

  -- What becomes of the state of each registered coroutine.
  waiter_state :
      (a : Ptr)
      → waits_here a ≡ true
      → (state_at (v.cell a) ≡ some waiting) × (awaits_at (v.cell a) ≡ v.running)
  waiter_state a w = ground arith

  after-waiter :
      (a : Ptr)
      → has a v.registered ≡ true
      → waits_here a ≡ true
      → (state_at (after a) ≡ some ready) × (awaits_at (after a) ≡ null)
  after-waiter a m w = ground arith

  after-other : (a : Ptr) → waits_here a ≡ false → after a ≡ before a
  after-other a w = ground arith

  abbrev queue_after : List Ptr
  queue_after = v.queue ++ keep waits_here v.registered

  has-queue_after :
      (a : Ptr) → has a queue_after ≡ (has a v.queue || (waits_here a && has a v.registered))
  has-queue_after a = ground (
    arith,
    has-append a v.queue (keep waits_here v.registered),
    has-keep waits_here a v.registered,
  )

  -- A coroutine that still waits waited before, and for another one.
  still_waits :
      (a : Ptr)
      → has a v.registered ≡ true
      → state_at (after a) ≡ some waiting
      → (after a ≡ v.cell a)
        × (state_at (v.cell a) ≡ some waiting)
        × (awaits_at (v.cell a) ≢ v.running)
  still_waits a m st = elim (Bool-cases (waits_here a)) [
    | inl w ↦ ground (arith, after-waiter a m w)
    | inr n ↦ ground (arith, after-other a n)
  ]

  not_done_after :
      (a : Ptr)
      → has a v.registered ≡ true
      → a ≢ v.running
      → state_at (v.cell a) ≢ some done
      → state_at (after a) ≢ some done
  not_done_after a m nr nd = elim (Bool-cases (waits_here a)) [
    | inl w ↦ ground (arith, after-waiter a m w)
    | inr n ↦ ground (arith, after-other a n)
  ]

  waits_after :
      (a : Ptr)
      → has a v.registered ≡ true
      → state_at (after a) ≡ some waiting
      → (has (awaits_at (after a)) v.registered ≡ true)
        × (state_at (after (awaits_at (after a))) ≢ some done)
  waits_after a m st =
      let (e, w, ne') = still_waits a m st in
      let (r, nd) = k.waits a m w in rw e (r, not_done_after (awaits_at (v.cell a)) r ne' nd)

  queued_after :
      (a : Ptr)
      → has a queue_after ≡ true
      → (has a v.registered ≡ true) × (state_at (after a) ≡ some ready)
  queued_after a m = elim (Bool-cases (waits_here a)) [
    | inl w ↦ ground (arith, has-queue_after a, k.queued a, after-waiter a)
    | inr n ↦ ground (arith, has-queue_after a, k.queued a, after-other a n, k.runs)
  ]

  ready_queued_after :
      (a : Ptr)
      → has a v.registered ≡ true
      → state_at (after a) ≡ some ready
      → has a queue_after ≡ true
  ready_queued_after a m st = elim (Bool-cases (waits_here a)) [
    | inl w ↦ ground (arith, has-queue_after a)
    | inr n ↦ ground (arith, has-queue_after a, after-other a n, k.ready_queued a m)
  ]

  none_runs_after :
      (a : Ptr) → has a v.registered ≡ true → state_at (after a) ≡ some running → a ≡ null
  none_runs_after a m st = elim (Bool-cases (waits_here a)) [
    | inl w ↦ ground (arith, after-waiter a m w)
    | inr n ↦ ground (arith, after-other a n, k.only_runs a m)
  ]

  idle_after :
      (a : Ptr)
      → has a v.registered ≡ true
      → state_at (after a) ≢ some waiting
      → awaits_at (after a) ≡ null
  idle_after a m st = elim (Bool-cases (waits_here a)) [
    | inl w ↦ (after-waiter a m w).1
    | inr n ↦ ground (arith, after-other a n, k.idle a m, k.runs)
  ]

  pub finish-IsConsistent : IsConsistent (finish_view v.running c v)
  finish-IsConsistent = record {
    distinct = k.distinct;
    few = k.few;
    not_null = k.not_null;
    allocated = λ a m. ground (arith, k.allocated a m, after-waiter a m, after-other a);
    queue_distinct =
        Distinct-append v.queue (keep waits_here v.registered) k.queue_distinct
          (Distinct-keep waits_here v.registered k.distinct)
          (λ a m. ground (arith, k.queued a m, has-keep waits_here a v.registered, waiter_state a));
    queued = queued_after;
    ready_queued = ready_queued_after;
    runs = λ n. ground arith;
    only_runs = none_runs_after;
    waits = waits_after;
    idle = idle_after;
  }
