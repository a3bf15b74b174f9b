-- ===== src/Examples/Tests.antt =====
-- The theorems on the examples at concrete inputs.
mod Sync
mod Flow
mod Graph
mod Timer
mod Services
mod Numbers
mod Events
mod Scheduled
