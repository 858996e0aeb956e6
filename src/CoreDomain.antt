-- ===== src/CoreDomain.antt =====
-- packages/core-domain: the pure rules of the assessment platform.
pub mod Errors
pub mod Attempt
pub mod Question
pub mod Deadline
pub mod Shuffle
pub mod Kinds
pub mod Draw
pub mod KindContent
mod Tests
