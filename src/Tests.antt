-- ===== src/Tests.antt =====
-- Runs of the model and instances of its theorems at concrete inputs.
mod Codecs
mod Hub
mod Lifecycle
mod Store
mod Artifacts
mod Life
mod Replicate
mod Notify
mod Agent
mod Sim
mod Settings
mod Bridge
mod Threads
mod Invariants
mod Sidecar
mod Cli
mod Leaf
