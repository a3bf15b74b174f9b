-- ===== src/Examples/OnScheduler/Meeting.antt =====
-- The workers of examples/barrier.c, created by co_create and run by co_run of src/coroutine.c.
use c_coroutine.Base.{
  ℕ, ◌≤◌, ◌≡◌, ◌≢◌, sym, ap, ◌∙◌, subst, none, ◌⊎◌, inl, inr, ℕ-cases, arith, length,
}
use c_coroutine.Runtime.Types.{World, max_coroutines, ok}
use c_coroutine.Runtime.Refine.Defs.{view}
use c_coroutine.Runtime.Machine.{Program}
use c_coroutine.Runtime.Boot.{boot, boot-IsGood}
use c_coroutine.Examples.Crowd.{Crowd, total, crowd_turn}
use c_coroutine.Examples.Turns.{turns}
use c_coroutine.Examples.OnScheduler.{program, after, crowd_of}
use c_coroutine.Examples.OnScheduler.Turns.{runs_turns}
use c_coroutine.Examples.OnScheduler.Launch.{Memory, AllFree, create_each, create_each_lem}
use c_coroutine.Examples.Barrier
use c_coroutine.Examples.Barrier.{Worker, CoBarrier, worker, cob_init, started}
use c_coroutine.Examples.Barrier.Rendezvous.{before, passed, none_passes_early}

abbrev pub workers : Program Worker CoBarrier
workers = program (λ fn arg. Barrier.fresh) worker

-- The workers and the barrier for `n` after some steps of co_run.
abbrev pub workers_after : (n steps : ℕ) → World Worker → Crowd Worker CoBarrier
workers_after n steps w = let (u, w') = after workers steps (cob_init n) w in crowd_of u (view w')

-- With memory for n workers, 512 at most, their creations succeed, and after any number of steps
-- of co_run on the state that they leave, with the barrier for n, no worker has yet to arrive, or
-- none has passed the barrier.
pub meets_on_scheduler :
    (fn steps : ℕ) (mems : Memory)
    → fn ≢ 0
    → AllFree {L = Worker} (λ _. none) mems
    → length mems ≤ max_coroutines
    → (w : World Worker) × (create_each fn 1 Barrier.fresh mems boot ≡ ok tt w)
      × ((total before (workers_after (length mems) steps w).locals ≡ 0)
          ⊎ (total passed (workers_after (length mems) steps w).locals ≡ 0))
unfolding started
meets_on_scheduler fn steps mems nf free room =
    let n = length mems in
    let (w, e, g, ls) =
      create_each_lem fn 1 Barrier.fresh mems boot nf boot-IsGood free (omega (arith, room)) in
    let (schedule, same) = runs_turns (λ fn arg. Barrier.fresh) worker steps (cob_init n) w g in
    let start : crowd_of (cob_init n) (view w) ≡ started n =
      ap (λ xs. record { locals = xs; shared = cob_init n }) ls in
    (
      w,
      e,
      subst
          (λ (c : Crowd Worker CoBarrier).
            (total before c.locals ≡ 0) ⊎ (total passed c.locals ≡ 0))
          (sym (same ∙ ap (turns (crowd_turn worker) schedule) start))
          (elim (ℕ-cases (total before (turns (crowd_turn worker) schedule (started n)).locals) 0) [
            | inl none_before ↦ inl none_before
            | inr some_before ↦ inr (none_passes_early n schedule some_before)
          ]),
    )
