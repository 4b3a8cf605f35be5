-- ===== src/Fixture.antt =====
-- internal/adapter/outbound/fixture: scenarios on disk in place of a cluster.
pub mod Tablets
pub mod Faults
pub mod Plans
pub mod Leaders
pub mod Shape
pub mod Lost
pub mod Full
pub mod Found
pub mod Exact
pub mod Reported
