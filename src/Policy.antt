-- ===== src/Policy.antt =====
-- internal/policy: the policy of a host, its maintenance window, and the decision on a request.
pub mod Time
pub mod Clock
pub mod Window
pub mod Parse
pub mod Rounds
pub mod Zones
pub mod Opening
pub mod NextUtc
pub mod Next
pub mod Rules
pub mod Decide
pub mod Ranks
pub mod Age
pub mod Permits
pub mod Sovereignty
pub mod Load
