-- ===== src/Runtime.antt =====
-- The scheduler of src/coroutine.c: its data, its operations and their proofs, in child modules.
pub mod Types
pub mod Queue
pub mod Ops
pub mod Spec
pub mod Refine
pub mod Invariant
pub mod Machine
pub mod Boot
pub mod Dangling
mod Tests
