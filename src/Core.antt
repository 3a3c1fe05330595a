-- ===== src/Core.antt =====
-- The engine's core: inc/vb/core and src/core.
pub mod Ids
pub mod VersionReq
mod Examples
