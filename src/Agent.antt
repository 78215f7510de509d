-- ===== src/Agent.antt =====
-- The leaf agent (leaf/agent/): checkins with sync, the event loop, the mesh, settings, the client id,
-- code artifacts, and the life of an agent.
pub mod Autosync
pub mod Outcomes
pub mod Mesh
pub mod Config
pub mod Identity
pub mod Artifacts
pub mod Lifecycle
pub mod Sidecar
pub mod Peers
pub mod Carrier
pub mod Serve
