-- ===== src/Notify.antt =====
-- The notify messaging service (leaf/agent/notify/): deduplication, pairing tokens, devices,
-- messages, and the store and the service over them.
pub mod Dedup
pub mod Pubsub
pub mod Token
pub mod JsonFile
pub mod Devices
pub mod Pending
pub mod Message
pub mod Store
pub mod Service
pub mod Watch
