-- ===== src/Protocol.antt =====
-- The wire protocol: inc/vb/protocol and src/protocol.
pub mod ByteBuffer
pub mod Result
pub mod Message
pub mod Compression
pub mod Handshake
pub mod Chat
pub mod Input
pub mod Inventory
pub mod AssetSync
pub mod Registry
pub mod EntityKinds
pub mod World
pub mod Snapshot
pub mod Messages
pub mod Examples
