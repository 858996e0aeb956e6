-- ===== src/CoreDomain/Tests.antt =====
-- Tests of the core domain, and its theorems at concrete inputs.
mod Lifecycle
mod Draws
mod Content
