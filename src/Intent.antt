-- ===== src/Intent.antt =====
-- internal/intent: the closed catalogue of operations, and how their parameters are decoded.
pub mod Names
pub mod Params
pub mod Decode
pub mod Catalogue
pub mod Units
pub mod Nothing
pub mod Safety
