-- ===== src/Apwm.antt =====
-- apwm/src: worlds, the view of them on one Archipelago base, and manifests.
pub mod Semver
pub mod Maps
pub mod Keyed
pub mod Worlds
pub mod Manifests
pub mod IndexSets
pub mod Changes
pub mod Files
pub mod Lint
pub mod Locks
pub mod Refreshing
pub mod Checksums
pub mod Downloads
pub mod Tests
mod Examples
pub mod Retries
pub mod Freezing
