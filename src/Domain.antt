-- ===== src/Domain.antt =====
-- internal/domain: the data of a universe snapshot and of the reports.
pub mod Ids
pub mod Cluster
pub mod Report
pub mod Places
pub mod Quorum
