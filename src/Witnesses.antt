-- ===== src/Witnesses.antt =====
-- Runs of the components on a small universe, to which each theorem applies.
pub mod Data
mod Analysis
mod Judgement
mod Setup
mod Whole
mod Sources
mod Cluster
mod Scenario
mod Commands
