-- ===== src/WorkQueue.antt =====
-- The Redis-backed work queue (wq/).
pub mod Status
pub mod Redis
pub mod Keys
pub mod Store
pub mod Jobs
pub mod Claiming
pub mod Waiting
pub mod Sweep
pub mod Exclusive
pub mod Orphans
pub mod Encoding
pub mod Tests
