-- ===== src/Tests.antt =====
-- The theorems at concrete inputs, and runs of the definitions.
mod Intents
mod Policies
mod Agents
mod Stores
mod Helpers
mod Servers
mod Alarms
mod Documents
mod Operators
mod Signers
mod Beats
mod Deliveries
mod Enrolments
mod Revisions
