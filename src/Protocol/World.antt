-- ===== src/Protocol/World.antt =====
-- inc/vb/protocol/world.hpp and src/protocol/world.cpp: chunk replication, block edits and the clock.
-- An enum is its number.
pub mod RoundTrip
use voxel_browser.Prelude.{
  ℕ, zero, suc, ◌+◌, ◌*◌, ◌^◌, ◌≤◌, ◌<◌, ◌≡◌, Bool, true, false, not, ◌||◌, ◌&&◌, Option, none,
  some, List, [], ◌∷◌, ◌++◌, map, ap, arith, ltb, leb, ◌==◌, if◌then◌else◌, le→ltb, length, All,
  refl,
}
use voxel_browser.Prelude.Int.{ℤ, InRange}
use voxel_browser.Protocol.ByteBuffer.{
  put_le, get_le, get_u8, put_boolean, get_boolean, put_varint, get_varint, put_string, get_string,
  get_bytes, max_decoded_length, length_exceeded, bad_enum, malformed, Reader, fail,
}
use voxel_browser.Protocol.ByteBuffer.Signed.{
  put_i32, get_i32, put_svarint, get_svarint_32, get_varint_32,
}
use voxel_browser.Protocol.Result.{
  Result, ok, err, Decoder, ◌>>=◌, ◌>>◌, ret, read, reject_if, reject_live_if, fail_live_if,
  read_list, read_capped, write_optional, read_optional, decode_with, concat,
}
use voxel_browser.Core.Ids.{IVec3, ChunkCoord}

abbrev pub max_chunk_bytes : ℕ
max_chunk_bytes = 8 * 1024 * 1024

abbrev pub chunk_volume : ℕ
chunk_volume = 32 * 32 * 32

-- `valid(BlockEditAction)`: kBreak and kPlace.
unfoldable pub is_block_edit_action : ℕ → Bool
is_block_edit_action action = action == 0 || action == 1

unfoldable pub write_coord : ChunkCoord → List ℕ
write_coord m = concat (put_i32 m.x ∷ put_i32 m.y ∷ put_i32 m.z ∷ [])

unfoldable pub read_coord : Decoder ChunkCoord
read_coord = do
  x ← read get_i32
  y ← read get_i32
  z ← read get_i32
  ret (record { x = x; y = y; z = z })

pub record S2CChunkAdd : Type 0 where
  pub coord : ChunkCoord
  pub revision : ℕ
  pub payload : List ℕ

unfoldable pub encode_chunk_add : S2CChunkAdd → List ℕ
encode_chunk_add m =
    concat
      (write_coord m.coord ∷ put_le 8 m.revision ∷ put_varint (length m.payload) ∷ m.payload ∷ [])

unfoldable pub decode_chunk_add : List ℕ → Result S2CChunkAdd
decode_chunk_add = decode_with do
  coord ← read_coord
  revision ← read (get_le 8)
  count_payload ← read get_varint
  reject_if (ltb max_chunk_bytes count_payload) length_exceeded
  payload ← read (get_bytes count_payload)
  ret (record { coord = coord; revision = revision; payload = payload })

pub record BlockChange : Type 0 where
  pub local_index : ℕ
  pub block : ℕ

unfoldable pub write_block_change : BlockChange → List ℕ
write_block_change m = concat (put_varint m.local_index ∷ put_le 2 m.block ∷ [])

unfoldable pub read_block_change : Decoder BlockChange
read_block_change = do
  local_index ← read get_varint_32
  block ← read (get_le 2)
  reject_if (leb chunk_volume local_index) malformed
  ret (record { local_index = local_index; block = block })

pub record LightChange : Type 0 where
  pub local_index : ℕ
  pub packed : ℕ

unfoldable pub write_light_change : LightChange → List ℕ
write_light_change m = concat (put_varint m.local_index ∷ put_le 1 m.packed ∷ [])

unfoldable pub read_light_change : Decoder LightChange
read_light_change = do
  local_index ← read get_varint_32
  packed ← read get_u8
  reject_if (leb chunk_volume local_index) malformed
  ret (record { local_index = local_index; packed = packed })

pub record S2CChunkDelta : Type 0 where
  pub coord : ChunkCoord
  pub base_revision : ℕ
  pub new_revision : ℕ
  pub blocks : List BlockChange
  pub light : List LightChange

unfoldable pub encode_chunk_delta : S2CChunkDelta → List ℕ
encode_chunk_delta m = concat (
    write_coord m.coord
    ∷ put_le 8 m.base_revision
    ∷ put_le 8 m.new_revision
    ∷ put_varint (length m.blocks)
    ∷ concat (map write_block_change m.blocks)
    ∷ put_varint (length m.light)
    ∷ concat (map write_light_change m.light)
    ∷ [])

unfoldable pub decode_chunk_delta : List ℕ → Result S2CChunkDelta
decode_chunk_delta = decode_with do
  coord ← read_coord
  base_revision ← read (get_le 8)
  new_revision ← read (get_le 8)
  count_blocks ← read get_varint
  reject_if (ltb chunk_volume count_blocks) length_exceeded
  blocks ← read_list count_blocks read_block_change
  count_light ← read get_varint
  reject_if (ltb chunk_volume count_light) length_exceeded
  light ← read_list count_light read_light_change
  ret (record {
    coord = coord;
    base_revision = base_revision;
    new_revision = new_revision;
    blocks = blocks;
    light = light;
  })

pub record S2CChunkRemove : Type 0 where
  pub coord : ChunkCoord

unfoldable pub encode_chunk_remove : S2CChunkRemove → List ℕ
encode_chunk_remove m = concat (write_coord m.coord ∷ [])

unfoldable pub decode_chunk_remove : List ℕ → Result S2CChunkRemove
decode_chunk_remove = decode_with do coord ← read_coord; ret (record { coord = coord })

unfoldable pub write_ivec3 : IVec3 → List ℕ
write_ivec3 m = concat (put_svarint m.x ∷ put_svarint m.y ∷ put_svarint m.z ∷ [])

unfoldable pub read_ivec3 : Decoder IVec3
read_ivec3 = do
  x ← read get_svarint_32
  y ← read get_svarint_32
  z ← read get_svarint_32
  ret (record { x = x; y = y; z = z })

pub record C2SBlockEdit : Type 0 where
  pub predicted_seq : ℕ
  pub action : ℕ
  pub pos : IVec3
  pub block : ℕ

unfoldable pub encode_block_edit : C2SBlockEdit → List ℕ
encode_block_edit m =
    concat
      (put_le 4 m.predicted_seq ∷ put_le 1 m.action ∷ write_ivec3 m.pos ∷ put_le 2 m.block ∷ [])

unfoldable pub decode_block_edit : List ℕ → Result C2SBlockEdit
decode_block_edit = decode_with do
  predicted_seq ← read (get_le 4)
  action ← read get_u8
  reject_if (not (is_block_edit_action action)) bad_enum
  pos ← read_ivec3
  block ← read (get_le 2)
  ret (record { predicted_seq = predicted_seq; action = action; pos = pos; block = block })

pub record S2CBlockEditResult : Type 0 where
  pub predicted_seq : ℕ
  pub accepted : Bool
  pub pos : IVec3

unfoldable pub encode_block_edit_result : S2CBlockEditResult → List ℕ
encode_block_edit_result m =
    concat (put_le 4 m.predicted_seq ∷ put_boolean m.accepted ∷ write_ivec3 m.pos ∷ [])

unfoldable pub decode_block_edit_result : List ℕ → Result S2CBlockEditResult
decode_block_edit_result = decode_with do
  predicted_seq ← read (get_le 4)
  accepted ← read get_boolean
  pos ← read_ivec3
  ret (record { predicted_seq = predicted_seq; accepted = accepted; pos = pos })

pub record S2CBlockDamage : Type 0 where
  pub pos : IVec3
  pub punches : ℕ
  pub revision : ℕ

unfoldable pub encode_block_damage : S2CBlockDamage → List ℕ
encode_block_damage m = concat (write_ivec3 m.pos ∷ put_le 2 m.punches ∷ put_le 8 m.revision ∷ [])

unfoldable pub decode_block_damage : List ℕ → Result S2CBlockDamage
decode_block_damage = decode_with do
  pos ← read_ivec3
  punches ← read (get_le 2)
  revision ← read (get_le 8)
  ret (record { pos = pos; punches = punches; revision = revision })

pub record C2SBlockBreakBegin : Type 0 where
  pub pos : IVec3
  pub face : IVec3

unfoldable pub encode_block_break_begin : C2SBlockBreakBegin → List ℕ
encode_block_break_begin m = concat (write_ivec3 m.pos ∷ write_ivec3 m.face ∷ [])

unfoldable pub decode_block_break_begin : List ℕ → Result C2SBlockBreakBegin
decode_block_break_begin =
    decode_with do pos ← read_ivec3; face ← read_ivec3; ret (record { pos = pos; face = face })

pub record C2SBlockBreakStop : Type 0 where
  pub pos : IVec3

unfoldable pub encode_block_break_stop : C2SBlockBreakStop → List ℕ
encode_block_break_stop m = concat (write_ivec3 m.pos ∷ [])

unfoldable pub decode_block_break_stop : List ℕ → Result C2SBlockBreakStop
decode_block_break_stop = decode_with do pos ← read_ivec3; ret (record { pos = pos })

pub record S2CTimeOfDay : Type 0 where
  pub time_of_day : ℕ

unfoldable pub encode_time_of_day : S2CTimeOfDay → List ℕ
encode_time_of_day m = concat (put_le 4 m.time_of_day ∷ [])

unfoldable pub decode_time_of_day : List ℕ → Result S2CTimeOfDay
decode_time_of_day =
    decode_with do time_of_day ← read (get_le 4); ret (record { time_of_day = time_of_day })
