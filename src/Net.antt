-- ===== src/Net.antt =====
-- Networking above the wire format: inc/vb/net and src/net.
pub mod Envelope
pub mod Delivery
pub mod Handshake
pub mod Loopback
pub mod BlockDamageTracker
mod Examples
