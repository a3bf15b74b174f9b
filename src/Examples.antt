-- ===== src/Examples.antt =====
-- The example programs of examples/: their data structures, and their coroutines taking turns.
-- A turn runs a coroutine from where it last called `co_yield` to its next call of it, or to its
-- end. What is shown holds for every order of the turns.
pub mod OnScheduler
pub mod PingPong
pub mod ProducerConsumer
pub mod RecursiveFib
pub mod StateMachine
pub mod EchoServer
pub mod Generator
pub mod TaskGraph
pub mod TimerCoroutine
pub mod TimerWheel
pub mod Turns
pub mod Unblocked
pub mod WorkStealing
mod Tests
pub mod AsyncIo
pub mod Barrier
pub mod Channel
pub mod Crowd
pub mod FiberPool
pub mod Pipeline
pub mod RingBuffer
pub mod Semaphore
