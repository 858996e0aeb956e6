-- ===== src/Auth.antt =====
-- packages/auth: the signed credentials of candidates and of live interviews.
pub mod Envelope
pub mod Claims
pub mod AttemptToken
pub mod WsTicket
pub mod Token
mod Tests
