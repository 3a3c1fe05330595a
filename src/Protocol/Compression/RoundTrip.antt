-- ===== src/Protocol/Compression/RoundTrip.antt =====
-- src/protocol/compression.cpp: decompression of what was compressed.
use voxel_browser.Prelude.{
  ℕ, ◌%◌, ◌^◌, ◌≤◌, ◌≡◌, refl, List, [], ◌∷◌, arith, le→ltb, length, append-nil,
}
use voxel_browser.Protocol.ByteBuffer.{max_decoded_length}
use voxel_browser.Protocol.ByteBuffer.Reads.{get_le-Gets, get_bytes-Gets}
use voxel_browser.Protocol.Result.{ok}
use voxel_browser.Protocol.Compression.{Lz4, Lz4Laws, compress_lz4, decompress_lz4}

-- With an LZ4 that keeps its documented laws, every payload of at most 64 MiB comes back.
pub decompress_lz4-compress_lz4 :
    (lz4 : Lz4) (bytes : List ℕ)
    → Lz4Laws lz4
    → length bytes ≤ max_decoded_length
    → decompress_lz4 lz4 (compress_lz4 lz4 bytes) ≡ ok bytes
unfolding decompress_lz4 compress_lz4
decompress_lz4-compress_lz4 lz4 [] laws h =
    let empty = rw append-nil at (get_le-Gets 4 0 (omega arith) []) in rw empty refl
decompress_lz4-compress_lz4 lz4 (b ∷ bs) laws h =
    let n : length (b ∷ bs) % 2 ^ 32 ≡ length (b ∷ bs) = omega arith in
    let z : List ℕ = lz4.compress (b ∷ bs) in
    let whole = rw append-nil at (get_bytes-Gets z []) in
    rw
      (
        n,
        get_le-Gets 4 (length (b ∷ bs)) (omega arith) z,
        whole,
        le→ltb max_decoded_length (length (b ∷ bs)) h,
        laws.inverse b bs (omega arith),
      )
      (ground (arith, laws.nonempty b bs (omega arith)))
