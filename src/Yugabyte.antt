-- ===== src/Yugabyte.antt =====
-- internal/adapter/outbound/yugabyte: the client of a cluster.
pub mod Prom
pub mod Bodies
pub mod Servers
pub mod Entities
pub mod Flags
pub mod Snapshots
pub mod Ysql
pub mod Client
pub mod Queries
