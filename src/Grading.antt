-- ===== src/Grading.antt =====
-- packages/grading: the marks of answers.
pub mod Mcq
pub mod Aggregate
pub mod Compare
pub mod ShortAnswer
mod Tests
