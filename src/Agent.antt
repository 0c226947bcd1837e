-- ===== src/Agent.antt =====
-- internal/agent: the replay store, the acceptance of a job, and its execution.
pub mod Job
pub mod Nonces
pub mod Accept
pub mod Sound
pub mod Replay
pub mod Once
pub mod Run
mod Refusals
pub mod Orderly
pub mod Beat
pub mod Spool
pub mod Delivery
pub mod Reports
pub mod Kept
pub mod Lossless
pub mod Enrol
pub mod Templates
pub mod ApplyOnce
