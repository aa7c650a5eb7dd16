-- ===== src/Command.antt =====
-- cmd/scrutiny/main.go: the command line.
pub mod Args
pub mod Capture
pub mod Session
