-- ===== src/Helper.antt =====
-- internal/helper and internal/privsep: the root helpers behind their sockets.
pub mod Endpoints
pub mod Perform
pub mod Outcome
pub mod Sovereignty
pub mod Agreement
