-- ===== src/Protocol/Result/Fields.antt =====
-- The reads of single fields, in the decoders' form, with what the matching writes append.
use voxel_browser.Prelude.{ℕ, ◌^◌, ◌≤◌, ◌<◌, Bool, List, length}
use voxel_browser.Protocol.ByteBuffer.{
  put_le, get_le, put_varint, get_varint, put_boolean, get_boolean, put_string, get_string,
  get_bytes, max_decoded_length,
}
use voxel_browser.Protocol.ByteBuffer.Reads.{
  get_le-Gets, get_varint-Gets, get_boolean-Gets, get_string-Gets, get_bytes-Gets,
}
use voxel_browser.Prelude.Int.{ℤ, InRange}
use voxel_browser.Protocol.ByteBuffer.Signed.{
  put_i32, get_i32, put_svarint, get_svarint_32, get_i32-Gets, get_svarint_32-Gets, get_varint_32,
  get_varint_32-Gets,
}
use voxel_browser.Protocol.Result.{read}
use voxel_browser.Protocol.Result.Reads.{Reads, one}

pub word : (n : ℕ) {v : ℕ} → v < 256 ^ n → Reads (read (get_le n)) (put_le n v) v
word n {v} h = one _ (get_le-Gets n v h)

pub varint : {v : ℕ} → v < 2 ^ 64 → Reads (read get_varint) (put_varint v) v
varint {v} h = one _ (get_varint-Gets v h)

pub boolean : (v : Bool) → Reads (read get_boolean) (put_boolean v) v
boolean v = one _ (get_boolean-Gets v)

pub string :
    (cap : ℕ) (s : List ℕ)
    → length s ≤ cap
    → length s ≤ max_decoded_length
    → Reads (read (get_string cap)) (put_string s) s
string cap s h h' = one _ (get_string-Gets cap s h h')

-- `r.string()` with its default cap.
pub text :
    {s : List ℕ}
    → length s ≤ max_decoded_length
    → Reads (read (get_string max_decoded_length)) (put_string s) s
text {s} h = string _ s h h

pub bytes : (bs : List ℕ) → Reads (read (get_bytes (length bs))) bs bs
bytes bs = one _ (get_bytes-Gets bs)

pub int32 : (v : ℤ) → InRange (2 ^ 32) v → Reads (read get_i32) (put_i32 v) v
int32 v h = one _ (get_i32-Gets v h)

pub svarint_32 : (v : ℤ) → InRange (2 ^ 32) v → Reads (read get_svarint_32) (put_svarint v) v
svarint_32 v h = one _ (get_svarint_32-Gets v h)

pub varint_32 : {v : ℕ} → v < 2 ^ 32 → Reads (read get_varint_32) (put_varint v) v
varint_32 {v} h = one _ (get_varint_32-Gets v h)
