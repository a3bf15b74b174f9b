-- ===== src/Runtime/Refine.antt =====
-- The functions of src/coroutine.c implement the operations of the specification.
pub mod Defs
pub mod Switch
pub mod Round
pub mod Wake
pub mod Create
