-- ===== src/Protocol/Compression.antt =====
-- inc/vb/protocol/compression.hpp and src/protocol/compression.cpp. LZ4 is a parameter.
pub mod RoundTrip
use voxel_browser.Prelude.{
  ℕ, ◌+◌, ◌*◌, ◌%◌, ◌^◌, ◌≤◌, ◌<◌, ◌≡◌, Bool, Option, none, some, List, [], ◌∷◌, ◌++◌, ltb, ◌==◌,
  if◌then◌else◌, length,
}
use voxel_browser.Protocol.ByteBuffer.{
  Reader, put_le, get_le, get_bytes, open_reader, failed, remaining, max_decoded_length,
  short_buffer, length_exceeded, malformed,
}
use voxel_browser.Protocol.Result.{Result, ok, err}

-- `LZ4_compress_default` into a buffer of `LZ4_compressBound` bytes, and `LZ4_decompress_safe` of a
-- block into a buffer of the given size: `none` is a negative answer, otherwise what was written.
pub record Lz4 : Type 0 where
  pub compress : List ℕ → List ℕ
  pub decompress : List ℕ → ℕ → Option (List ℕ)

-- What LZ4 documents: an input of 1 to LZ4_MAX_INPUT_SIZE bytes compresses to a block that is not
-- empty, and decompresses to itself in a buffer of its size.
pub record Lz4Laws (lz4 : Lz4) : Type 0 where
  pub nonempty :
      (b : ℕ) (bs : List ℕ) → length (b ∷ bs) ≤ 0x7E000000 → 0 < length (lz4.compress (b ∷ bs))
  pub inverse :
      (b : ℕ) (bs : List ℕ)
      → length (b ∷ bs) ≤ 0x7E000000
      → lz4.decompress (lz4.compress (b ∷ bs)) (length (b ∷ bs)) ≡ some (b ∷ bs)

unfoldable pub compress_lz4 : Lz4 → List ℕ → List ℕ
compress_lz4 lz4 [] = put_le 4 0
compress_lz4 lz4 (b ∷ bs) = put_le 4 (length (b ∷ bs) % 2 ^ 32) ++ lz4.compress (b ∷ bs)

-- The answer of `LZ4_decompress_safe` against the announced size.
unfoldable pub check_decoded : Option (List ℕ) → ℕ → Result (List ℕ)
check_decoded none original_size = err malformed
check_decoded (some out) original_size =
    if length out == original_size then ok out else err malformed

unfoldable pub decompress_lz4 : Lz4 → List ℕ → Result (List ℕ)
unfolding check_decoded
decompress_lz4 lz4 bytes =
    let (original_size, r) = get_le 4 (open_reader bytes) in
    let (compressed, r') = get_bytes (remaining r) r in
    if failed r
    then err short_buffer
    else if ltb max_decoded_length original_size
    then err length_exceeded
    else if original_size == 0
    then ok []
    else if failed r'
    then err short_buffer
    else if length compressed == 0
    then err short_buffer
    else check_decoded (lz4.decompress compressed original_size) original_size
