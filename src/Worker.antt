-- ===== src/Worker.antt =====
-- apps/worker: the effects of the worker's jobs.
pub mod JobId
pub mod Idempotent
pub mod DeadLetter
mod Tests
