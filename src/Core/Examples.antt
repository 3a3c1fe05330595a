-- ===== src/Core/Examples.antt =====
-- The theorems of the coordinates and of version requirements at concrete values.
use voxel_browser.Prelude.{false, ◌&&◌, ◌||◌, not, ◌==◌, some, [], ◌∷◌, refl}
use voxel_browser.Prelude.Int.{negsuc, ◌+ℤ◌}
use voxel_browser.Core.VersionReq.Decimal.{from_chars, read_number, read_digits}
use voxel_browser.Core.VersionReq.Parse.{
  VersionReq, version, less, caret, tilde, Partial, expand, accepts, matches, lower_bound,
  caret_upper, parsed, parse_req, parse_semver, trim_front, trim_back, split_all, split_at,
  parse_items, parse_item, prefix, parse_partial, parse_parts, parse_part, partial_of,
}
use voxel_browser.Core.VersionReq.Bounds.{matches-lower_bound, same_series, expand-matches}
use voxel_browser.Prelude.{◌≡◌, arith}
use voxel_browser.Prelude.Int.{pos, negsuc}
use voxel_browser.Core.Ids.{IVec3, ChunkCoord, chunk_of, local_of, chunk_origin}
use voxel_browser.Core.Ids.Coordinates.{
  ◌+v◌, IsLocalVec, chunk_origin-local_of, chunk_of-chunk_origin,
}

abbrev voxel : IVec3
voxel = record { x = negsuc 0; y = pos 40; z = negsuc 32 }

chunk_origin-local_of_example :
    (chunk_origin (chunk_of voxel) +v local_of voxel ≡ voxel) × IsLocalVec (local_of voxel)
chunk_origin-local_of_example = chunk_origin-local_of voxel

abbrev chunk : ChunkCoord
chunk = record { x = negsuc 1; y = pos 0; z = pos 3 }

abbrev place : IVec3
place = record { x = pos 31; y = pos 0; z = pos 7 }

chunk_of-chunk_origin_example :
    (chunk_of (chunk_origin chunk +v place) ≡ chunk)
    × (local_of (chunk_origin chunk +v place) ≡ place)
chunk_of-chunk_origin_example = chunk_of-chunk_origin chunk place record {
  x = (omega arith, omega arith);
  y = (omega arith, omega arith);
  z = (omega arith, omega arith);
}

-- >=0.5.0, <0.6.0, and a version that it admits.
abbrev point_five : VersionReq
point_five = expand caret (record { v = version (pos 0) (pos 5) (pos 0); parts = 2 })

matches-lower_bound_example :
    less (version (pos 0) (pos 5) (pos 2)) (version (pos 0) (pos 5) (pos 0)) ≡ false
unfolding matches lower_bound expand accepts less caret_upper ◌+ℤ◌
matches-lower_bound_example =
    matches-lower_bound point_five (version (pos 0) (pos 5) (pos 2))
      (version (pos 0) (pos 5) (pos 0)) refl refl

expand-matches_example :
    let p : Partial = record { v = version (pos 0) (pos 5) (pos 1); parts = 3 } in
    let v = version (pos 0) (pos 6) (pos 0) in
    (matches (expand caret p) v ≡ (not (less v p.v) && same_series 3 0 5 1 0 6 0))
    × (matches (expand tilde p) v ≡ (not (less v p.v) && (0 == 0 && (3 == 1 || 6 == 5))))
expand-matches_example = expand-matches 3 0 5 1 0 6 0

-- "^0.5" as it is read.
parse_req_test : parse_req (b'^' ∷ b'0' ∷ b'.' ∷ b'5' ∷ []) ≡ parsed point_five
unfolding parse_req trim_front trim_back split_all parse_items parse_item prefix parse_partial
    parse_parts split_at parse_part from_chars read_number read_digits partial_of expand
parse_req_test = refl

-- A minus sign is read.
parse_semver_test :
    parse_semver (b'-' ∷ b'1' ∷ b'.' ∷ b'0' ∷ []) ≡ some (version (negsuc 0) (pos 0) (pos 0))
unfolding trim_front trim_back parse_semver parse_partial parse_parts split_at parse_part from_chars
    read_number read_digits partial_of
parse_semver_test = refl
