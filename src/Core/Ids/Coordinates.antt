-- ===== src/Core/Ids/Coordinates.antt =====
-- inc/vb/core/ids.hpp: how a voxel, its chunk and its place in the chunk determine one another.
use voxel_browser.Prelude.{ℕ, ◌-◌, ◌/◌, ◌%◌, ◌≡◌, ap, arith}
use voxel_browser.Prelude.Int.{
  ℤ, pos, negsuc, ◌+ℤ◌, ◌-ℤ◌, ◌*ℤ◌, trunc_div, trunc_mod, ◌≤ℤ◌, int_laws, eq_of_parts, +ℤ_parts,
  *ℤ-32_parts, pos_part, neg_part,
}
use voxel_browser.Core.Ids.{
  IVec3, ChunkCoord, floor_div, floor_mod, chunk_of, local_of, chunk_origin, chunk_dim,
}

floor_div-pos : (n : ℕ) → floor_div (pos n) chunk_dim ≡ pos (n / 32)
unfolding floor_div trunc_div trunc_mod ◌-ℤ◌
floor_div-pos n = ground arith

floor_div-negsuc : (n : ℕ) → floor_div (negsuc n) chunk_dim ≡ negsuc (n / 32)
unfolding floor_div trunc_div trunc_mod ◌-ℤ◌
floor_div-negsuc n = ground arith

floor_mod-pos : (n : ℕ) → floor_mod (pos n) chunk_dim ≡ pos (n % 32)
unfolding floor_mod trunc_mod ◌+ℤ◌
floor_mod-pos n = ground arith

floor_mod-negsuc : (n : ℕ) → floor_mod (negsuc n) chunk_dim ≡ pos (31 - n % 32)
unfolding floor_mod trunc_mod ◌+ℤ◌
floor_mod-negsuc n = ground arith

-- A place in a chunk along one axis.
abbrev pub IsLocal : ℤ → Type 0
IsLocal r = (pos 0 ≤ℤ r) × (r ≤ℤ pos 31)

axis_split :
    (a : ℤ)
    → (floor_div a chunk_dim *ℤ chunk_dim +ℤ floor_mod a chunk_dim ≡ a)
      × IsLocal (floor_mod a chunk_dim)
axis_split (pos n) = rw (floor_div-pos n, floor_mod-pos n) (omega int_laws, omega arith)
axis_split (negsuc n) = rw (floor_div-negsuc n, floor_mod-negsuc n) (omega int_laws, omega arith)

-- A quotient and a remainder in range are determined by the number that they make.
same_parts :
    (q' r' q r : ℤ)
    → q' *ℤ chunk_dim +ℤ r' ≡ q *ℤ chunk_dim +ℤ r
    → IsLocal r'
    → IsLocal r
    → (q' ≡ q) × (r' ≡ r)
same_parts q' r' q r e l h = (
  eq_of_parts q' q (
      omega (
        arith,
        ap pos_part e,
        ap neg_part e,
        +ℤ_parts (q' *ℤ chunk_dim) r',
        +ℤ_parts (q *ℤ chunk_dim) r,
        *ℤ-32_parts q',
        *ℤ-32_parts q,
      )),
  eq_of_parts r' r (
      omega (
        arith,
        ap pos_part e,
        ap neg_part e,
        +ℤ_parts (q' *ℤ chunk_dim) r',
        +ℤ_parts (q *ℤ chunk_dim) r,
        *ℤ-32_parts q',
        *ℤ-32_parts q,
      )),
)

axis_unique :
    (q r : ℤ)
    → IsLocal r
    → (floor_div (q *ℤ chunk_dim +ℤ r) chunk_dim ≡ q)
      × (floor_mod (q *ℤ chunk_dim +ℤ r) chunk_dim ≡ r)
axis_unique q r h =
    let q' : ℤ = floor_div (q *ℤ chunk_dim +ℤ r) chunk_dim in
    let r' : ℤ = floor_mod (q *ℤ chunk_dim +ℤ r) chunk_dim in
    let (e, l) = axis_split (q *ℤ chunk_dim +ℤ r) in same_parts q' r' q r e l h

infixl 65 ◌+v◌
unfoldable pub ◌+v◌ : IVec3 → IVec3 → IVec3
a +v b = record { x = a.x +ℤ b.x; y = a.y +ℤ b.y; z = a.z +ℤ b.z }

-- A place in a 32 x 32 x 32 chunk.
pub record IsLocalVec (v : IVec3) : Type 0 where
  pub x : IsLocal v.x
  pub y : IsLocal v.y
  pub z : IsLocal v.z

-- Every voxel, of negative coordinates too, is its chunk's origin plus a place in the chunk.
pub chunk_origin-local_of :
    (v : IVec3) → (chunk_origin (chunk_of v) +v local_of v ≡ v) × IsLocalVec (local_of v)
unfolding chunk_origin chunk_of local_of ◌+v◌
chunk_origin-local_of v =
    let (ex, lx) = axis_split v.x in
    let (ey, ly) = axis_split v.y in
    let (ez, lz) = axis_split v.z in (cc, record { x = lx; y = ly; z = lz })

-- The voxel at a place of a chunk has that chunk and that place: no other pair gives the voxel.
pub chunk_of-chunk_origin :
    (c : ChunkCoord) (p : IVec3)
    → IsLocalVec p
    → (chunk_of (chunk_origin c +v p) ≡ c) × (local_of (chunk_origin c +v p) ≡ p)
unfolding chunk_origin chunk_of local_of ◌+v◌
chunk_of-chunk_origin c p h =
    let (ex, lx) = axis_unique c.x p.x h.x in
    let (ey, ly) = axis_unique c.y p.y h.y in let (ez, lz) = axis_unique c.z p.z h.z in (cc, cc)
