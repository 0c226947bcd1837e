-- ===== src/Alerts.antt =====
-- internal/server/alerts.go and the alert tables of internal/store: who is notified, and how often.
pub mod Tables
pub mod Evaluate
pub mod Events
mod Elsewhere
pub mod Paced
