-- ===== src/Auth.antt =====
-- internal/auth: operators' sessions.
pub mod Sessions
pub mod Lifetime
pub mod Windows
pub mod Ended
