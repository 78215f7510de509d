-- ===== src/Hub.antt =====
-- The hub package.
pub mod Catchup
pub mod Repo
pub mod Users
pub mod Lifecycle
pub mod Pull
pub mod Replicate
