-- ===== src/Net/Handshake.antt =====
-- inc/vb/net/handshake.hpp and src/net/handshake.cpp: the two state machines of a connection.
pub mod Texts
pub mod Server
pub mod Verdict
pub mod Assets
pub mod Chunks
pub mod Ahead
pub mod Stream
pub mod Frames
pub mod Client
pub mod ClientFrames
pub mod ClientOrder
pub mod ClientGate
pub mod ClientRun
pub mod Link
pub mod Arrivals
pub mod Replies
pub mod Join
pub mod Calls
pub mod Drops
pub mod SignIn
pub mod Admission
mod Examples
