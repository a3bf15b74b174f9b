-- ===== src/Runtime/Tests.antt =====
-- Runs of the model, and the theorems about src/coroutine.c at concrete inputs.
mod Interleave
mod One
mod Ring
