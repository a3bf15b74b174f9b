-- ===== src/Runtime/Tests/Interleave.antt =====
-- `test_yield_interleave` of tests/test_basic.c: two coroutines that yield three times each.
use c_coroutine.Base.{
  ℕ, zero, suc, ◌<◌, ◌≤◌, ◌≡◌, refl, ap, sym, ◌∙◌, subst, List, [], ◌∷◌, ◌++◌, arith, length,
  length-take, true, Bool-cases, inl, inr, Option, none, some, ◌==◌, ◌-◌, if◌then◌else◌,
}
use c_coroutine.Runtime.Types.{Ptr, Coroutine, World, Outcome, ok, failed, fault, M, ◌>>=◌}
use c_coroutine.Runtime.Queue.{q_push, q_pop}
use c_coroutine.Runtime.Ops.{co_create, co_entry, co_yield, co_run_round, wakeup_waiters, wake_each}
use c_coroutine.Runtime.Spec.{View, create_view}
use c_coroutine.Runtime.Refine.Defs.{view}
use c_coroutine.Runtime.Boot.{boot, boot-IsGood, co_create-IsGood}
use c_coroutine.Runtime.Machine.{
  Request, return, yield, Program, advance, perform, step, co_run, returned,
}
use c_coroutine.Runtime.Machine.Effects.{Allowed}
use c_coroutine.Runtime.Machine.Good.{IsGood, size-le-count}
use c_coroutine.Runtime.Machine.Safety.{StepsWell, step_refines}
use c_coroutine.Runtime.Machine.Spending.{Spends, total}
use c_coroutine.Runtime.Machine.Termination.{Behaves, Finishes, co_run_terminates}
use c_coroutine.Runtime.Machine.Settled.{Each, IsDone, IsSettled, co_run_settles, co_run_completes}
use c_coroutine.Runtime.Machine.Unsuspended.{NoneWaits, is_plain, step-NoneWaits}
use c_coroutine.Runtime.Machine.Order.{picked, picked_in_order}
use c_coroutine.Runtime.Queue.Fifo.{contents}
use c_coroutine.Examples.Crowd.{crowd_turn}
use c_coroutine.Examples.Turns.{turns}
use c_coroutine.Examples.OnScheduler.{program, after, crowd_of}
use c_coroutine.Examples.OnScheduler.Turns.{runs_turns}

-- What a body writes into the sequence, and how often it still does.
abbrev Body : Type 0
Body = ℕ × ℕ

abbrev go : (tag left : ℕ) → List ℕ → Request Body (List ℕ)
go tag zero seq = return seq
go tag (suc n) seq = yield (tag, n) (seq ++ (tag ∷ []))

abbrev bodies : Program Body (List ℕ)
bodies = record { enter = λ fn arg. (fn, 3); next = λ l seq. go l.0 l.1 seq }

abbrev even_mem : Ptr
even_mem = 1000

abbrev odd_mem : Ptr
odd_mem = 2000

abbrev main : M Body Ptr
main = do
  e ← co_create even_mem 5000 1 0 0 (bodies.enter 1 0)
  co_create odd_mem 6000 2 0 0 (bodies.enter 2 0)

abbrev trace : Outcome Body Ptr → List ℕ
trace (ok p w) = elim (co_run bodies 40 [] w) [ returned w' seq ↦ seq | _ ↦ [] ]
trace (failed e) = []
trace fault = []

round_robin : trace (main boot) ≡ 1 ∷ 2 ∷ 1 ∷ 2 ∷ 1 ∷ 2 ∷ []
unfolding co_create co_run step perform advance co_run_round co_yield co_entry wakeup_waiters
    wake_each q_push q_pop
round_robin = refl

-- The two creations, with what is known of the states that they leave.
abbrev first :
    (w : World Body) × (co_create even_mem 5000 1 0 0 (bodies.enter 1 0) boot ≡ ok even_mem w)
    × IsGood w
    × (view w ≡ create_view even_mem 5000 1 0 0 (bodies.enter 1 0) (view boot))
first =
    co_create-IsGood even_mem 5000 1 0 0 (bodies.enter 1 0) boot-IsGood (omega arith) (omega arith)
      (omega arith) (omega arith) refl

first_count : first.0.count ≡ 1
first_count = omega (
  arith,
  length-take first.0.count first.0.all (omega (arith, first.2.sound)),
  ap (λ (v : View Body). length v.registered) first.3,
)

abbrev second :
    (w : World Body) × (co_create odd_mem 6000 2 0 0 (bodies.enter 2 0) first.0 ≡ ok odd_mem w)
    × IsGood w
    × (view w ≡ create_view odd_mem 6000 2 0 0 (bodies.enter 2 0) (view first.0))
second =
    co_create-IsGood odd_mem 6000 2 0 0 (bodies.enter 2 0) first.2 (omega arith)
      (omega (arith, first_count)) (omega arith) (omega arith)
      (ap (λ (v : View Body). v.cell odd_mem) first.3)

abbrev ready_to_run : World Body
ready_to_run = second.0

abbrev start_view : View Body
start_view =
    create_view odd_mem 6000 2 0 0 (bodies.enter 2 0)
      (create_view even_mem 5000 1 0 0 (bodies.enter 1 0) (view boot))

view_at_start : view ready_to_run ≡ start_view
view_at_start = second.3 ∙ ap (create_view odd_mem 6000 2 0 0 (bodies.enter 2 0)) first.3

abbrev budget : Body → ℕ
budget l = l.1

abbrev Always : List ℕ → World Body → Type 0
Always seq w = Unit

go-Allowed : (v : View Body) (tag left : ℕ) (seq : List ℕ) → Allowed v (go tag left seq)
go-Allowed v tag zero seq = tt
go-Allowed v tag (suc n) seq = tt

go-Spends :
    (c : Coroutine Body) (tag left : ℕ) (seq : List ℕ)
    → left ≡ budget c.ctx
    → Spends budget bodies c (go tag left seq)
go-Spends c tag zero seq e = tt
go-Spends c tag (suc n) seq e = omega arith

bodies-Behave : Behaves bodies budget Always
bodies-Behave = record {
  allowed = λ seq w g i c ne h. go-Allowed (view w) c.ctx.0 c.ctx.1 seq;
  spends = λ seq w c g i h. go-Spends c c.ctx.0 c.ctx.1 seq refl;
  keeps = λ seq seq' w w' g i e. tt;
}

co_create-IsGood_example :
    (w' : World Body) × (co_create even_mem 5000 1 0 0 (bodies.enter 1 0) boot ≡ ok even_mem w')
    × IsGood w'
    × (view w' ≡ create_view even_mem 5000 1 0 0 (bodies.enter 1 0) (view boot))
co_create-IsGood_example =
    co_create-IsGood even_mem 5000 1 0 0 (bodies.enter 1 0) boot-IsGood (omega arith) (omega arith)
      (omega arith) (omega arith) refl

step_refines_example : StepsWell bodies [] ready_to_run
step_refines_example =
    step_refines bodies [] second.2 (bodies-Behave.allowed [] ready_to_run second.2 tt)

start_potential : total budget bodies (view ready_to_run) < 30
start_potential = subst (λ v. total budget bodies v < 30) (sym view_at_start) (omega arith)

co_run_terminates_example : Finishes bodies 30 [] ready_to_run
co_run_terminates_example =
    co_run_terminates bodies budget Always bodies-Behave 30 [] ready_to_run second.2 tt
      start_potential

size-le-count_test : ready_to_run.run_queue.q_size ≤ ready_to_run.count
size-le-count_test = size-le-count second.2

picked_in_order_example :
    (added : List Ptr) × (contents ready_to_run.run_queue ++ added
      ≡ (picked bodies 7 [] ready_to_run).0
        ++ contents (picked bodies 7 [] ready_to_run).1.run_queue)
picked_in_order_example =
    picked_in_order bodies budget Always bodies-Behave 7 [] ready_to_run second.2 tt

abbrev one_turn : Body → List ℕ → Option Body × List ℕ
one_turn l seq = if l.1 == 0 then (none, seq) else (some (l.0, l.1 - 1), seq ++ (l.0 ∷ []))

runs_turns_example :
    (schedule : List ℕ) × (crowd_of
        (after (program bodies.enter one_turn) 9 [] ready_to_run).0
        (view (after (program bodies.enter one_turn) 9 [] ready_to_run).1)
      ≡ turns (crowd_turn one_turn) schedule (crowd_of [] (view ready_to_run)))
runs_turns_example = runs_turns bodies.enter one_turn 9 [] ready_to_run second.2

co_run_settles_example :
    (seq : List ℕ) × (w' : World Body) × (co_run bodies 30 [] ready_to_run ≡ returned w' seq)
    × Each (IsSettled (view w')) (view w').registered
co_run_settles_example =
    co_run_settles bodies budget Always bodies-Behave 30 [] ready_to_run second.2 tt start_potential

-- The bodies never wait for one another.
abbrev NeverWaits : List ℕ → World Body → Type 0
NeverWaits seq w = NoneWaits (view w)

go-is_plain : (tag left : ℕ) (seq : List ℕ) → is_plain bodies (go tag left seq) ≡ true
go-is_plain tag zero seq = refl
go-is_plain tag (suc n) seq = refl

bodies-BehaveUnsuspended : Behaves bodies budget NeverWaits
bodies-BehaveUnsuspended = record {
  allowed = λ seq w g i c ne h. go-Allowed (view w) c.ctx.0 c.ctx.1 seq;
  spends = λ seq w c g i h. go-Spends c c.ctx.0 c.ctx.1 seq refl;
  keeps = λ seq seq' w w' g i e.
      step-NoneWaits bodies (λ l seq. go-is_plain l.0 l.1 seq)
        (λ seq w c ne h. go-Allowed (view w) c.ctx.0 c.ctx.1 seq) seq seq' w w' g i e;
}

NoneWaits-at_start : NoneWaits start_view
NoneWaits-at_start a = elim (Bool-cases (a == odd_mem)) [
  | inl odd ↦ rw odd (λ e. cc e)
  | inr other ↦ elim (Bool-cases (a == even_mem)) [
    | inl even ↦ rw (other, even) (λ e. cc e)
    | inr none_there ↦ rw (other, none_there) (λ e. cc e)
  ]
]

co_run_completes_example :
    (seq : List ℕ) × (w' : World Body) × (co_run bodies 30 [] ready_to_run ≡ returned w' seq)
    × Each (IsDone (view w')) (view w').registered
co_run_completes_example =
    co_run_completes bodies budget NeverWaits bodies-BehaveUnsuspended (λ p. p)
      (λ seq w g i a m waits. absurd (i a waits)) 30 [] ready_to_run second.2
      (subst NoneWaits (sym view_at_start) NoneWaits-at_start) start_potential
