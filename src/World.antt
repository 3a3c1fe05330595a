-- ===== src/World.antt =====
-- The voxel world: inc/vb/world and src/world.
pub mod PalettedChunkStore
mod Examples
pub mod ChunkCodec
pub mod ChunkPayload
