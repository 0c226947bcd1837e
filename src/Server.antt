-- ===== src/Server.antt =====
-- internal/server: the requests of operators that create and release jobs, and those of agents.
pub mod Jobs
pub mod Routine
pub mod Created
pub mod Handlers
pub mod Heartbeat
pub mod Beats
pub mod OneBeat
pub mod Settling
pub mod Unsettled
pub mod Results
