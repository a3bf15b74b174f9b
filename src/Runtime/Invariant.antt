-- ===== src/Runtime/Invariant.antt =====
-- The invariant of the scheduler, and that every operation of the specification keeps it.
pub mod Defs
pub mod Switch
pub mod Create
pub mod Finish
pub mod Save
