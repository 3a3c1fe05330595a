-- ===== src/Core/Ids.antt =====
-- inc/vb/core/ids.hpp and the floor division of inc/vb/core/math.hpp: voxel and chunk coordinates.
-- Coordinates are integers; the functions below leave the int32 range only where `chunk_origin` does.
pub mod Coordinates
use voxel_browser.Prelude.{
  ℕ, ◌+◌, ◌*◌, ◌≡◌, Bool, true, false, ◌&&◌, not, arith, List, if◌then◌else◌,
}
use voxel_browser.Prelude.Int.{
  ℤ, pos, negsuc, ◌+ℤ◌, ◌-ℤ◌, ◌*ℤ◌, trunc_div, trunc_mod, is_zero, is_negative, differ, ℤ-discrete,
}

pub record IVec3 : Type 0 where
  pub x : ℤ
  pub y : ℤ
  pub z : ℤ

pub record ChunkCoord : Type 0 where
  pub x : ℤ
  pub y : ℤ
  pub z : ℤ

abbrev pub chunk_dim : ℤ
chunk_dim = pos 32

unfoldable pub floor_div : ℤ → ℤ → ℤ
floor_div a b =
    let q = trunc_div a b in
    let r = trunc_mod a b in
    if not (is_zero r) && differ (is_negative r) (is_negative b) then q -ℤ pos 1 else q

unfoldable pub floor_mod : ℤ → ℤ → ℤ
floor_mod a b =
    let r = trunc_mod a b in
    if not (is_zero r) && differ (is_negative r) (is_negative b) then r +ℤ b else r

unfoldable pub chunk_of : IVec3 → ChunkCoord
chunk_of v = record {
  x = floor_div v.x chunk_dim;
  y = floor_div v.y chunk_dim;
  z = floor_div v.z chunk_dim;
}

unfoldable pub local_of : IVec3 → IVec3
local_of v = record {
  x = floor_mod v.x chunk_dim;
  y = floor_mod v.y chunk_dim;
  z = floor_mod v.z chunk_dim;
}

unfoldable pub chunk_origin : ChunkCoord → IVec3
chunk_origin c = record { x = c.x *ℤ chunk_dim; y = c.y *ℤ chunk_dim; z = c.z *ℤ chunk_dim }

pub IVec3-discrete : Discrete IVec3
IVec3-discrete = hlevel ℤ-discrete

pub ChunkCoord-discrete : Discrete ChunkCoord
ChunkCoord-discrete = hlevel ℤ-discrete

-- `==` of voxels and of chunks, as tests.
unfoldable pub same_voxel : IVec3 → IVec3 → Bool
same_voxel a b = elim (IVec3-discrete a b) [ yes e ↦ true | no e ↦ false ]

unfoldable pub same_chunk : ChunkCoord → ChunkCoord → Bool
same_chunk a b = elim (ChunkCoord-discrete a b) [ yes e ↦ true | no e ↦ false ]

pub same_voxel→eq : (a b : IVec3) → same_voxel a b ≡ true → a ≡ b
unfolding same_voxel
same_voxel→eq a b h = ground arith

pub same_voxel_refl : (a : IVec3) → same_voxel a a ≡ true
unfolding same_voxel
same_voxel_refl a = ground arith

pub same_chunk→eq : (a b : ChunkCoord) → same_chunk a b ≡ true → a ≡ b
unfolding same_chunk
same_chunk→eq a b h = ground arith

pub same_chunk_refl : (a : ChunkCoord) → same_chunk a a ≡ true
unfolding same_chunk
same_chunk_refl a = ground arith
