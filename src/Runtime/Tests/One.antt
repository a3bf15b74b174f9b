-- ===== src/Runtime/Tests/One.antt =====
-- One coroutine from its creation to its end, and the theorems about each call on the way.
use c_coroutine.Base.{
  ℕ, ◌<◌, ◌≡◌, ◌≢◌, ◌⊎◌, inr, refl, ap, sym, ◌∙◌, subst, [], ◌∷◌, some, arith, length, length-take,
  take, true, false, has,
}
use c_coroutine.Runtime.Types.{
  Ptr, null, running, waiting, done, Coroutine, World, ok, failed, fault, too_many, free_unfinished,
  max_coroutines, queue_cap,
}
use c_coroutine.Runtime.Queue.Fifo.{length-window}
use c_coroutine.Runtime.Ops.{co_create, co_entry, co_yield, co_await, co_run_round, co_free}
use c_coroutine.Runtime.Spec.{
  View, fresh, create_view, resume_view, finish_view, yield_view, await_view,
}
use c_coroutine.Runtime.Refine.Defs.{view, IsSound, Delivers}
use c_coroutine.Runtime.Refine.Switch.{co_yield_refines, co_await_refines, co_await-done}
use c_coroutine.Runtime.Refine.Round.{co_run_round-empty, co_run_round_refines}
use c_coroutine.Runtime.Refine.Wake.{co_entry_refines}
use c_coroutine.Runtime.Refine.Create.{
  co_create-no_memory, co_create-too_many, co_free-done, co_free-unfinished,
}
use c_coroutine.Runtime.Invariant.Defs.{IsConsistent, state_at, awaits_at}
use c_coroutine.Runtime.Invariant.Switch.{resume-IsConsistent}
use c_coroutine.Runtime.Invariant.Finish.{finish-IsConsistent}
use c_coroutine.Runtime.Machine.Good.{IsGood, IsGood-IsWakeable}
use c_coroutine.Runtime.Machine.Termination.{quiescent, all_done}
use c_coroutine.Runtime.Boot.{boot, boot-IsGood, co_create-IsGood}
use c_coroutine.Runtime.Dangling.{freed, co_entry-after-co_free}

abbrev Here : Type 0
Here = ℕ

abbrev mem : Ptr
mem = 1000

abbrev Created : Ptr → Ptr → World Here → Type 0
Created p stack w =
    (w' : World Here) × (co_create p stack 1 0 0 7 w ≡ ok p w')
    × IsGood w'
    × (view w' ≡ create_view p stack 1 0 0 7 (view w))

abbrev created : Created mem 5000 boot
created =
    co_create-IsGood mem 5000 1 0 0 7 boot-IsGood (omega arith) (omega arith) (omega arith)
      (omega arith) refl

abbrev new_object : Coroutine Here
new_object = fresh 1 5000 1 0 0 7

abbrev running_object : Coroutine Here
running_object = record new_object { state = running }

abbrev created_view : View Here
created_view = create_view mem 5000 1 0 0 7 (view boot)

abbrev running_view : View Here
running_view = resume_view mem new_object [] created_view

abbrev done_view : View Here
done_view = finish_view mem running_object running_view

round_refined :
    Delivers (co_run_round created.0) true (resume_view mem new_object [] (view created.0))
round_refined =
    co_run_round_refines created.2.sound mem [] (ap (λ (v : View Here). v.queue) created.3)
      (omega arith) (ap (λ (v : View Here). v.cell mem) created.3) refl

co_run_round-empty_example : Delivers (co_run_round {L = Here} boot) false (view boot)
co_run_round-empty_example = co_run_round-empty boot-IsGood.sound refl

abbrev started : World Here
started = round_refined.0

started-view : view started ≡ running_view
started-view = round_refined.3 ∙ ap (resume_view mem new_object []) created.3

started-IsGood : IsGood started
started-IsGood = record {
  sound = round_refined.2;
  consistent = subst IsConsistent (sym round_refined.3) (
      resume-IsConsistent created.2.consistent mem [] (ap (λ (v : View Here). v.queue) created.3)
        (ap (λ (v : View Here). v.cell mem) created.3)
        (ap (λ (v : View Here). v.running) created.3));
}

started_running : started.running ≡ mem
started_running = ap (λ (v : View Here). v.running) started-view

started_cell : started.heap mem ≡ some running_object
started_cell = ap (λ (v : View Here). v.cell mem) started-view

-- The queue of the started state is empty.
started_room : started.run_queue.q_size < queue_cap
started_room = omega (
  arith,
  ap (λ (v : View Here). length v.queue) started-view,
  length-window started.run_queue.queue started.run_queue.q_head started.run_queue.q_size,
)

at_running : started.heap started.running ≡ some running_object
at_running = ap started.heap started_running ∙ started_cell

co_yield_refines_test :
    Delivers (co_yield started) tt (yield_view started.running running_object (view started))
co_yield_refines_test =
    co_yield_refines started-IsGood.sound (omega (arith, started_running)) at_running started_room

-- A coroutine that waits for itself.
co_await_refines_test :
    Delivers
      (co_await mem started)
      tt
      (await_view started.running running_object mem (view started))
co_await_refines_test =
    co_await_refines started-IsGood.sound mem (omega arith) started_cell (ground arith)
      (omega (arith, started_running)) at_running

co_entry_refines_example :
    Delivers (co_entry mem started) tt (finish_view mem running_object (view started))
co_entry_refines_example = co_entry_refines mem (IsGood-IsWakeable started-IsGood) started_cell

abbrev finished : World Here
finished = co_entry_refines_example.0

finished-view : view finished ≡ done_view
finished-view = co_entry_refines_example.3 ∙ ap (finish_view mem running_object) started-view

finished-IsGood : IsGood finished
finished-IsGood = record {
  sound = co_entry_refines_example.2;
  consistent =
      subst IsConsistent
        (sym (
          co_entry_refines_example.3
          ∙ ap (λ p. finish_view p running_object (view started)) (sym started_running)))
        (finish-IsConsistent started-IsGood.consistent (omega (arith, started_running)) at_running);
}

finished_cell : finished.heap mem ≡ some (record running_object { state = done })
finished_cell = ap (λ (v : View Here). v.cell mem) finished-view

finished_member : has mem (take finished.count finished.all) ≡ true
finished_member = ap (λ (v : View Here). has mem v.registered) finished-view

co_await-done_example : co_await mem finished ≡ ok tt finished
co_await-done_example = co_await-done finished-IsGood.sound mem (omega arith) finished_cell refl

quiescent_test :
    (state_at (finished.heap mem) ≡ some done)
    ⊎ ((state_at (finished.heap mem) ≡ some waiting)
        × (has (awaits_at (finished.heap mem)) (take finished.count finished.all) ≡ true)
        × (state_at (finished.heap (awaits_at (finished.heap mem))) ≢ some done))
quiescent_test =
    quiescent finished-IsGood (ap (λ (v : View Here). v.running) finished-view)
      (ap (λ (v : View Here). v.queue) finished-view) mem finished_member

-- Nothing waits, since the only coroutine is done.
none_wait :
    (a : Ptr)
    → has a (take finished.count finished.all) ≡ true
    → state_at (finished.heap a) ≡ some waiting
    → awaits_at (finished.heap a) < a
none_wait a m st =
    let reg : has a (mem ∷ []) ≡ true =
      sym (ap (λ (v : View Here). has a v.registered) finished-view) ∙ m in
    let at_mem : a ≡ mem = ground (arith, reg) in
    cc (ap (λ p. state_at (finished.heap p)) at_mem, ap state_at finished_cell, st)

all_done_test : state_at (finished.heap mem) ≡ some done
all_done_test =
    all_done (λ p. p) finished-IsGood (ap (λ (v : View Here). v.running) finished-view)
      (ap (λ (v : View Here). v.queue) finished-view) none_wait mem finished_member

co_create-no_memory_example : co_create mem null 1 0 0 7 (boot {L = Here}) ≡ ok null boot
co_create-no_memory_example =
    co_create-no_memory boot-IsGood.sound mem null 1 0 0 7 (omega arith) (omega arith) refl
      (inr refl)

-- A registry with an entry in every place.
abbrev full : World Here
full = record boot { count = max_coroutines }

full-IsSound : IsSound full
full-IsSound = record {
  ring = (boot-IsGood {L = Here}).sound.ring;
  registry = (boot-IsGood {L = Here}).sound.registry;
  count_in = omega arith;
}

co_create-too_many_test : co_create mem 5000 1 0 0 7 full ≡ failed too_many
co_create-too_many_test = co_create-too_many full-IsSound mem 5000 1 0 0 7 (omega arith) refl

finished_stack : finished.stacks 5000 ≡ some 262144
finished_stack = ap (λ (v : View Here). v.stacks 5000) finished-view

co_free-done_test :
    co_free mem finished ≡ ok tt (freed mem (record running_object { state = done }) finished)
co_free-done_test = co_free-done mem finished (omega arith) finished_cell refl finished_stack

co_free-unfinished_test : co_free mem started ≡ failed free_unfinished
co_free-unfinished_test = co_free-unfinished mem started (omega arith) started_cell (ground arith)

-- A second coroutine is created, and the first, which is done, is freed.
finished_count : finished.count ≡ 1
finished_count = omega (
  arith,
  length-take finished.count finished.all (omega (arith, finished-IsGood.sound)),
  ap (λ (v : View Here). length v.registered) finished-view,
)

abbrev later : Created 2000 6000 finished
later =
    co_create-IsGood 2000 6000 1 0 0 7 finished-IsGood (omega arith) (omega (arith, finished_count))
      (omega arith) (omega arith) (ap (λ (v : View Here). v.cell 2000) finished-view)

later_view : view later.0 ≡ create_view 2000 6000 1 0 0 7 done_view
later_view = later.3 ∙ ap (create_view 2000 6000 1 0 0 7) finished-view

co_entry-after-co_free_example :
    (co_free mem later.0 ≡ ok tt (freed mem (record running_object { state = done }) later.0))
    × (co_entry 2000 (freed mem (record running_object { state = done }) later.0) ≡ fault)
co_entry-after-co_free_example =
    co_entry-after-co_free mem 2000 later.2
      (ap (λ (v : View Here). has mem v.registered) later_view)
      (ap (λ (v : View Here). v.cell mem) later_view) refl
      (ap (λ (v : View Here). v.stacks 5000) later_view) (omega arith)
      (ap (λ (v : View Here). v.cell 2000) later_view)
