-- ===== src/Collab.antt =====
-- apps/collab: the collaboration service of live interviews.
pub mod Protocol
pub mod TicketStore
pub mod Handshake
pub mod Rooms
pub mod Server
pub mod Frames
pub mod Lifecycle
pub mod Steps
mod Tests
