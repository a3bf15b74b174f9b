-- ===== src/Runtime/Machine/Good.antt =====
-- The states of the scheduler that its operations keep to.
use c_coroutine.Base.{
  ◌≤◌, ◌≡◌, ◌≢◌, refl, true, Option, none, some, has, arith, take, length-take, pigeonhole,
}
use c_coroutine.Runtime.Types.{Ptr, Coroutine, World, ok, load, update}
use c_coroutine.Runtime.Queue.Fifo.{contents, length-window}
use c_coroutine.Runtime.Refine.Defs.{view, IsSound}
use c_coroutine.Runtime.Refine.Wake.{IsAllocated, IsWakeable}
use c_coroutine.Runtime.Invariant.Defs.{state_at, IsConsistent}
use c_coroutine.Runtime.Invariant.Save.{save-IsConsistent}
use c_coroutine.Runtime.Machine.{advance}

module _ {L : Type 0} where
  -- The arrays are in order, and the scheduler's state is consistent.
  pub record IsGood (w : World L) : Type 0 where
    pub sound : IsSound w
    pub consistent : IsConsistent (view w)

  -- In a good state the run queue holds at most as many entries as there are coroutines, so that
  -- q_push, which asserts twice the maximal number, cannot overflow.
  pub size-le-count : {w : World L} → IsGood w → w.run_queue.q_size ≤ w.count
  size-le-count {w} g =
      let q = w.run_queue in
      omega (
        arith,
        pigeonhole (contents q) (take w.count w.all) g.consistent.queue_distinct
            (λ a m. (g.consistent.queued a m).0),
        length-window q.queue q.q_head q.q_size,
        length-take w.count w.all (omega (arith, g.sound)),
      )

  allocated_of_state :
      (o : Option (Coroutine L)) → state_at o ≢ none → (c : Coroutine L) × (o ≡ some c)
  allocated_of_state none h = absurd (h refl)
  allocated_of_state (some c) h = (c, refl)

  pub registered-IsAllocated :
      {w : World L}
      → IsGood w
      → (a : Ptr) → has a (take w.count w.all) ≡ true
      → IsAllocated w.heap a
  registered-IsAllocated {w} g a m = allocated_of_state (w.heap a) (g.consistent.allocated a m)

  pub IsGood-IsWakeable : {w : World L} → IsGood w → IsWakeable w
  IsGood-IsWakeable g = record {
    sound = g.sound;
    distinct = g.consistent.distinct;
    allocated = registered-IsAllocated g;
    room = omega (arith, size-le-count g, g.sound);
  }

module _ {L : Type 0} where
  -- The world in which the running coroutine `c` has come to `l`.
  abbrev pub saved : World L → Coroutine L → L → World L
  saved w c l = record w { heap = update w.heap w.running (some (record c { ctx = l })) }

  pub advance-ok :
      (w : World L) (c : Coroutine L) (l : L)
      → w.heap w.running ≡ some c
      → advance l w ≡ ok tt (saved w c l)
  unfolding advance
  advance-ok w c l h = rw (h, load)

  pub saved_self :
      (w : World L) (c : Coroutine L) (l : L)
      → (saved w c l).heap w.running ≡ some (record c { ctx = l })
  saved_self w c l = ground arith

  pub saved-IsSound : (w : World L) (c : Coroutine L) (l : L) → IsSound w → IsSound (saved w c l)
  saved-IsSound w c l s = record { ring = s.ring; registry = s.registry; count_in = s.count_in }

  pub saved-IsGood :
      (w : World L) (c : Coroutine L) (l : L)
      → IsGood w
      → w.heap w.running ≡ some c
      → IsGood (saved w c l)
  saved-IsGood w c l g h = record {
    sound = saved-IsSound w c l g.sound;
    consistent = save-IsConsistent l g.consistent h;
  }
