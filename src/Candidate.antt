-- ===== src/Candidate.antt =====
-- apps/candidate: the state behind the candidate's screen.
pub mod Connection
pub mod Countdown
mod Tests
