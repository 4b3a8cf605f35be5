-- ===== src/App.antt =====
-- internal/app: the analyzers.
pub mod Raft
pub mod Score
pub mod Groups
pub mod Resilience
pub mod Tally
pub mod Skew
pub mod Tablets
pub mod Flags
pub mod Pressure
pub mod Findings
pub mod Diff
pub mod Poc
pub mod Service
pub mod Watch
pub mod Explain
