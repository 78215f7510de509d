-- ===== src/Cli.antt =====
-- The command line of cli/: what its commands hold and call, and the checks of their arguments.
pub mod Notify
pub mod Doctor
pub mod Hub
