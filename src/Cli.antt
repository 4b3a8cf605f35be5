-- ===== src/Cli.antt =====
-- internal/adapter/inbound/cli: the command line.
pub mod Flags
pub mod Precedence
pub mod Render
pub mod World
pub mod Service
pub mod Runs
pub mod Commands
pub mod Proper
pub mod Exit
pub mod Printed
pub mod Compared
pub mod Endings
pub mod Whole
