-- ===== src/Api.antt =====
-- apps/api: the credentials of candidates, and the guard against forged requests.
pub mod SingleUse
pub mod TokenLife
pub mod Redemption
pub mod Csrf
mod Tests
