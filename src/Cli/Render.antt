-- ===== src/Cli/Render.antt =====
-- internal/adapter/inbound/cli/render/text.go: the reports as text. A `strings.Builder` is the list of
-- the pieces that are written to it. The JSON encoder is a parameter.
pub mod Numbers
pub mod Groups
pub mod Pieces
pub mod Health
pub mod Reports
