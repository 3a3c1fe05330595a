-- ===== src/Protocol/ByteBuffer/Signed.antt =====
-- inc/vb/protocol/byte_buffer.hpp: the signed reads and writes that the messages use.
use voxel_browser.Prelude.{
  ℕ, ◌-◌, ◌*◌, ◌/◌, ◌%◌, ◌^◌, ◌<◌, ◌≡◌, List, refl, ap, arith, ◌==◌, if◌then◌else◌,
}
use voxel_browser.Prelude.Int.{
  ℤ, pos, negsuc, is_negative, to_word, of_word, InRange, of_word-to_word_32,
}
use voxel_browser.Protocol.ByteBuffer.{Reader, open_reader, put_le, get_le, put_varint, get_varint}
use voxel_browser.Protocol.ByteBuffer.Reads.{Gets, get_le-Gets, get_varint-Gets}

unfoldable pub put_i32 : ℤ → List ℕ
put_i32 v = put_le 4 (to_word (2 ^ 32) v)

unfoldable pub get_i32 : Reader → ℤ × Reader
get_i32 r = let (v, r') = get_le 4 r in (of_word (2 ^ 32) v, r')

-- `(uint64_t(v) << 1) ^ uint64_t(v >> 63)`: the second operand is 0 or all ones, and `x ^ ~0` is
-- 2 ^ 64 - 1 - x.
unfoldable pub zigzag : ℤ → ℕ
zigzag v =
    let shifted = to_word (2 ^ 64) v * 2 % 2 ^ 64 in
    if is_negative v then 2 ^ 64 - 1 - shifted else shifted

-- `(v >> 1) ^ (~(v & 1) + 1)`: again 0 or all ones.
unfoldable pub unzigzag : ℕ → ℤ
unzigzag v = of_word (2 ^ 64) (if v % 2 == 1 then 2 ^ 64 - 1 - v / 2 else v / 2)

unfoldable pub put_svarint : ℤ → List ℕ
put_svarint v = put_varint (zigzag v)

unfoldable pub get_svarint : Reader → ℤ × Reader
get_svarint r = let (v, r') = get_varint r in (unzigzag v, r')

-- `static_cast<int32_t>(r.svarint())`, with the int64 cast to an int32.
unfoldable pub get_svarint_32 : Reader → ℤ × Reader
get_svarint_32 r = let (v, r') = get_svarint r in (of_word (2 ^ 32) (to_word (2 ^ 32) v), r')

-- `static_cast<uint32_t>(r.varint())`.
unfoldable pub get_varint_32 : Reader → ℕ × Reader
get_varint_32 r = let (v, r') = get_varint r in (v % 2 ^ 32, r')

pub get_varint_32-Gets : (v : ℕ) → v < 2 ^ 32 → Gets get_varint_32 (put_varint v) v
unfolding get_varint_32
get_varint_32-Gets v h rest =
    rw (get_varint-Gets v (omega arith) rest) (ap (λ (x : ℕ). (x, open_reader rest)) (omega arith))

pub get_i32-Gets : (v : ℤ) → InRange (2 ^ 32) v → Gets get_i32 (put_i32 v) v
unfolding get_i32 put_i32
get_i32-Gets v h rest =
    rw (get_le-Gets 4 (to_word (2 ^ 32) v) (fits v) rest, of_word-to_word_32 v h) refl
  where
    fits : (z : ℤ) → to_word (2 ^ 32) z < 256 ^ 4
    fits (pos n) = omega arith
    fits (negsuc n) = omega arith

pub zigzag_bound : (v : ℤ) → zigzag v < 2 ^ 64
unfolding zigzag
zigzag_bound (pos n) = omega arith
zigzag_bound (negsuc n) = omega arith

pub unzigzag-zigzag : (v : ℤ) → InRange (2 ^ 64) v → unzigzag (zigzag v) ≡ v
unfolding zigzag unzigzag
unzigzag-zigzag (pos n) h = ground arith
unzigzag-zigzag (negsuc n) h = ground arith

-- Every int64 comes back from its zig-zag varint.
pub get_svarint-Gets : (v : ℤ) → InRange (2 ^ 64) v → Gets get_svarint (put_svarint v) v
unfolding get_svarint put_svarint
get_svarint-Gets v h rest =
    rw (get_varint-Gets (zigzag v) (zigzag_bound v) rest, unzigzag-zigzag v h) refl

pub get_svarint_32-Gets : (v : ℤ) → InRange (2 ^ 32) v → Gets get_svarint_32 (put_svarint v) v
unfolding get_svarint_32
get_svarint_32-Gets v h rest = rw (get_svarint-Gets v (wide v h) rest, of_word-to_word_32 v h) refl
  where
    wide : (z : ℤ) → InRange (2 ^ 32) z → InRange (2 ^ 64) z
    wide (pos n) k = omega arith
    wide (negsuc n) k = omega arith
