-- ===== src/Lib.antt =====
-- A model of c-coroutine, a library of cooperative coroutines for C, and of its example programs.
--
-- The program. src/coroutine.c keeps the coroutines in a scheduler: an array of all of them, a
-- circular run queue of those that are ready, and the one that runs. co_create allocates a
-- coroutine with a stack, and queues it. co_run takes the oldest queued coroutine and switches to
-- it; it runs until it calls co_yield, which queues it again, or co_await, which suspends it until
-- another is done, or returns into co_entry, which marks it done and wakes those that wait for it.
-- src/asm_ctx.S saves and restores the registers at a switch. The programs in examples/ build
-- buffers, semaphores, barriers, channels, pools and timers on top of co_yield.
--
-- The files, by the part of the program that they model:
--   Base          names passed on from the libraries, Boolean tests, lists and membership.
--   Context       src/asm_ctx.S: co_ctx_switch and co_trampoline as instructions of a machine with
--                 registers and memory. Context.Switch says what a switch and a switch back do.
--                 Context.Entry is the part of co_create that writes the first stack frame.
--   Runtime.Types include/coroutine.h and the globals of src/coroutine.c: CoState, Coroutine, the
--                 scheduler's state S (RunQueue, World) with the objects behind its pointers.
--   Runtime.Queue q_push and q_pop, and the ring as a first-in first-out list.
--   Runtime.Ops   wakeup_waiters, co_entry, co_create, co_free, resume, co_run's loop body,
--                 co_yield, co_await, co_id and co_state, in a monad in which a call returns, fails
--                 an assertion, or reads an object that is not allocated.
--   Runtime.Spec  what the calls promise, without arrays; Runtime.Refine relates the two.
--   Runtime.Invariant, Runtime.Machine
--                 the invariant of the scheduler, and co_run interleaved with the coroutines. The
--                 code of a coroutine between two calls of the library is a parameter: a function
--                 from what its stack holds and the shared memory to its next call. Allocations
--                 are parameters of the call that makes them.
--   Runtime.Boot, Runtime.Dangling
--                 the state before the first call, and what is left after co_free.
--   Ring          the circular buffer that the examples share in shape.
--   Examples      examples/: Examples.Turns is an order of turns and what fair rounds achieve,
--                 Examples.Crowd any number of coroutines with one body, Examples.Unblocked those
--                 that never wait, Examples.OnScheduler such coroutines run by co_run on the model
--                 of the scheduler, with the workers of examples/barrier.c as main creates them;
--                 then a module for each program: RingBuffer
--                 (examples/ring_buffer_demo.c), Semaphore (with its loggers in Semaphore.Logger),
--                 Barrier, Channel, Pipeline, WorkStealing, FiberPool, AsyncIo, TimerWheel,
--                 TaskGraph, ProducerConsumer, StateMachine, RecursiveFib, Generator, PingPong,
--                 EchoServer and TimerCoroutine (the files of these names). Where the coroutines
--                 take turns, every order of the turns is allowed, so what is shown holds for the
--                 round robin of co_run as well. RecursiveFib.Sequence is the sequence that its two
--                 programs compute.
--
-- Bounds and fuel. At most 512 coroutines, and a run queue of 1024 places. Addresses and registers
-- are numbers below 2^64 that wrap around; the counters of the examples stay far below 2^31 and
-- are natural numbers; a sum of two values of type long that passes 2^63 in
-- examples/recursive_fib.c ends what is defined, and so does one of two int that passes 2^31 in
-- examples/pipeline.c, and a write behind an array in examples/task_graph.c. co_run takes fuel,
-- one unit for each call that a coroutine makes and each that the scheduler makes: the potential
-- of a state counts the budget of the program and the queued entries, and more fuel than that is
-- enough. Rounds of turns take the place of fuel in the examples: a theorem on termination gives
-- the number of rounds. The loops of examples/recursive_fib.c take fuel for their rounds, and its
-- tree of coroutines the depth to which calls of co_resume nest; two rounds, and a depth above the
-- number asked for, are enough.
--
-- Not modelled. The ucontext backend, whose functions belong to the C library; what is printed,
-- except where it is kept as a list; functions that examples call and the repository does not
-- have (co_await on a predicate in examples/semaphore.c, co_schedule and co_destroy in
-- examples/timer_wheel.c, co_self and co_wake in examples/channel.c, coroutine_resume in
-- examples/fiber_pool.c, co_resume in examples/state_machine.c and examples/recursive_fib.c): the
-- module of the example says what it takes of them. Tests and benchmarks.
pub mod Base
pub mod Context
pub mod Examples
pub mod Ring
pub mod Runtime
