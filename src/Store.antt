-- ===== src/Store.antt =====
-- internal/store: the control plane's store, as internal/store/memory.go keeps it.
pub mod State
pub mod Jobs
pub mod Hosts
pub mod Tenants
mod Sound
mod Keeps
mod Claims
mod Removal
pub mod Machine
mod Quiet
pub mod Reachable
pub mod Delivery
pub mod AtMostOnce
pub mod Outcomes
pub mod Limits
pub mod Apart
mod Isolation
mod Separation
mod Deletion
pub mod Tenancy
mod SameTokens
mod Spent
pub mod Tokens
pub mod Templates
mod Numbering
mod Revised
pub mod Versions
