-- ===== src/Protocol/World/RoundTrip.antt =====
-- inc/vb/protocol/world.hpp and src/protocol/world.cpp: chunk replication, block edits and the
-- clock: what a decoder makes of an encoder's bytes.
use voxel_browser.Prelude.{
  ℕ, ◌^◌, ◌≤◌, ◌<◌, ◌≡◌, true, not, List, ◌++◌, ap, arith, le→ltb, length, All,
}
use voxel_browser.Prelude.Int.{InRange}
use voxel_browser.Protocol.Result.Reads.{
  Reads, next, skip, done, exactly, decode_with-Reads, reject_if-Reads, read_list-Reads,
}
use voxel_browser.Protocol.Result.Fields.{
  word, varint, boolean, bytes, int32, svarint_32, varint_32,
}
use voxel_browser.Core.Ids.{IVec3, ChunkCoord}
use voxel_browser.Protocol.World.{
  max_chunk_bytes, chunk_volume, is_block_edit_action, write_coord, read_coord, S2CChunkAdd,
  encode_chunk_add, decode_chunk_add, BlockChange, write_block_change, read_block_change,
  LightChange, write_light_change, read_light_change, S2CChunkDelta, encode_chunk_delta,
  decode_chunk_delta, S2CChunkRemove, encode_chunk_remove, decode_chunk_remove, write_ivec3,
  read_ivec3, C2SBlockEdit, encode_block_edit, decode_block_edit, S2CBlockEditResult,
  encode_block_edit_result, decode_block_edit_result, S2CBlockDamage, encode_block_damage,
  decode_block_damage, C2SBlockBreakBegin, encode_block_break_begin, decode_block_break_begin,
  C2SBlockBreakStop, encode_block_break_stop, decode_block_break_stop, S2CTimeOfDay,
  encode_time_of_day, decode_time_of_day,
}

-- The values that the wire format can carry.
pub record ChunkCoordFits (m : ChunkCoord) : Type 0 where
  pub x : InRange (2 ^ 32) m.x
  pub y : InRange (2 ^ 32) m.y
  pub z : InRange (2 ^ 32) m.z

pub coord-Reads : (m : ChunkCoord) → ChunkCoordFits m → Reads read_coord (write_coord m) m
unfolding read_coord write_coord
coord-Reads m h = next _ (int32 _ h.x) (next _ (int32 _ h.y) (next _ (int32 _ h.z) (done _)))

-- The values that the wire format can carry.
pub record S2CChunkAddFits (m : S2CChunkAdd) : Type 0 where
  pub coord : ChunkCoordFits m.coord
  pub revision : m.revision < 2 ^ 64
  pub payload : length m.payload ≤ max_chunk_bytes

-- `decode` gives back a message whose values fit the wire format from the bytes that `encode` wrote,
-- and answers trailing_bytes if more bytes follow them.
pub decode-encode_chunk_add :
    (m : S2CChunkAdd) (extra : List ℕ)
    → S2CChunkAddFits m
    → decode_chunk_add (encode_chunk_add m ++ extra) ≡ exactly m extra
unfolding decode_chunk_add encode_chunk_add
decode-encode_chunk_add m extra h = decode_with-Reads extra (
    next _ (coord-Reads _ h.coord) (
      next _ (word 8 h.revision) (
        next _ (varint (omega arith))
          (skip _ (reject_if-Reads _ _ (le→ltb _ _ h.payload)) (next _ (bytes _) (done _))))))

-- The values that the wire format can carry.
pub record BlockChangeFits (m : BlockChange) : Type 0 where
  pub local_index : m.local_index < chunk_volume
  pub block : m.block < 2 ^ 16

pub block_change-Reads :
    (m : BlockChange) → BlockChangeFits m → Reads read_block_change (write_block_change m) m
unfolding read_block_change write_block_change
block_change-Reads m h =
    next _ (varint_32 (omega arith))
      (next _ (word 2 h.block) (skip _ (reject_if-Reads _ _ (ground arith)) (done _)))

-- The values that the wire format can carry.
pub record LightChangeFits (m : LightChange) : Type 0 where
  pub local_index : m.local_index < chunk_volume
  pub packed : m.packed < 2 ^ 8

pub light_change-Reads :
    (m : LightChange) → LightChangeFits m → Reads read_light_change (write_light_change m) m
unfolding read_light_change write_light_change
light_change-Reads m h =
    next _ (varint_32 (omega arith))
      (next _ (word 1 h.packed) (skip _ (reject_if-Reads _ _ (ground arith)) (done _)))

-- The values that the wire format can carry.
pub record S2CChunkDeltaFits (m : S2CChunkDelta) : Type 0 where
  pub coord : ChunkCoordFits m.coord
  pub base_revision : m.base_revision < 2 ^ 64
  pub new_revision : m.new_revision < 2 ^ 64
  pub blocks : All BlockChangeFits m.blocks
  pub count_blocks : length m.blocks ≤ chunk_volume
  pub light : All LightChangeFits m.light
  pub count_light : length m.light ≤ chunk_volume

-- `decode` gives back a message whose values fit the wire format from the bytes that `encode` wrote,
-- and answers trailing_bytes if more bytes follow them.
pub decode-encode_chunk_delta :
    (m : S2CChunkDelta) (extra : List ℕ)
    → S2CChunkDeltaFits m
    → decode_chunk_delta (encode_chunk_delta m ++ extra) ≡ exactly m extra
unfolding decode_chunk_delta encode_chunk_delta
decode-encode_chunk_delta m extra h = decode_with-Reads extra (
    next _ (coord-Reads _ h.coord) (
      next _ (word 8 h.base_revision) (
        next _ (word 8 h.new_revision) (
          next _ (varint (omega arith)) (
            skip _ (reject_if-Reads _ _ (le→ltb _ _ h.count_blocks)) (
              next _ (read_list-Reads BlockChangeFits _ _ block_change-Reads _ h.blocks) (
                next _ (varint (omega arith)) (
                  skip _ (reject_if-Reads _ _ (le→ltb _ _ h.count_light)) (
                    next _ (read_list-Reads LightChangeFits _ _ light_change-Reads _ h.light)
                      (done _))))))))))

-- The values that the wire format can carry.
pub record S2CChunkRemoveFits (m : S2CChunkRemove) : Type 0 where
  pub coord : ChunkCoordFits m.coord

-- `decode` gives back a message whose values fit the wire format from the bytes that `encode` wrote,
-- and answers trailing_bytes if more bytes follow them.
pub decode-encode_chunk_remove :
    (m : S2CChunkRemove) (extra : List ℕ)
    → S2CChunkRemoveFits m
    → decode_chunk_remove (encode_chunk_remove m ++ extra) ≡ exactly m extra
unfolding decode_chunk_remove encode_chunk_remove
decode-encode_chunk_remove m extra h =
    decode_with-Reads extra (next _ (coord-Reads _ h.coord) (done _))

-- The values that the wire format can carry.
pub record IVec3Fits (m : IVec3) : Type 0 where
  pub x : InRange (2 ^ 32) m.x
  pub y : InRange (2 ^ 32) m.y
  pub z : InRange (2 ^ 32) m.z

pub ivec3-Reads : (m : IVec3) → IVec3Fits m → Reads read_ivec3 (write_ivec3 m) m
unfolding read_ivec3 write_ivec3
ivec3-Reads m h =
    next _ (svarint_32 _ h.x) (next _ (svarint_32 _ h.y) (next _ (svarint_32 _ h.z) (done _)))

-- The values that the wire format can carry.
pub record C2SBlockEditFits (m : C2SBlockEdit) : Type 0 where
  pub predicted_seq : m.predicted_seq < 2 ^ 32
  pub action : m.action < 256
  pub action_valid : is_block_edit_action m.action ≡ true
  pub pos : IVec3Fits m.pos
  pub block : m.block < 2 ^ 16

-- `decode` gives back a message whose values fit the wire format from the bytes that `encode` wrote,
-- and answers trailing_bytes if more bytes follow them.
pub decode-encode_block_edit :
    (m : C2SBlockEdit) (extra : List ℕ)
    → C2SBlockEditFits m
    → decode_block_edit (encode_block_edit m ++ extra) ≡ exactly m extra
unfolding decode_block_edit encode_block_edit
decode-encode_block_edit m extra h = decode_with-Reads extra (
    next _ (word 4 h.predicted_seq) (
      next _ (word 1 h.action) (
        skip _ (reject_if-Reads _ _ (ap not h.action_valid))
          (next _ (ivec3-Reads _ h.pos) (next _ (word 2 h.block) (done _))))))

-- The values that the wire format can carry.
pub record S2CBlockEditResultFits (m : S2CBlockEditResult) : Type 0 where
  pub predicted_seq : m.predicted_seq < 2 ^ 32
  pub pos : IVec3Fits m.pos

-- `decode` gives back a message whose values fit the wire format from the bytes that `encode` wrote,
-- and answers trailing_bytes if more bytes follow them.
pub decode-encode_block_edit_result :
    (m : S2CBlockEditResult) (extra : List ℕ)
    → S2CBlockEditResultFits m
    → decode_block_edit_result (encode_block_edit_result m ++ extra) ≡ exactly m extra
unfolding decode_block_edit_result encode_block_edit_result
decode-encode_block_edit_result m extra h = decode_with-Reads extra (
    next _ (word 4 h.predicted_seq)
      (next _ (boolean m.accepted) (next _ (ivec3-Reads _ h.pos) (done _))))

-- The values that the wire format can carry.
pub record S2CBlockDamageFits (m : S2CBlockDamage) : Type 0 where
  pub pos : IVec3Fits m.pos
  pub punches : m.punches < 2 ^ 16
  pub revision : m.revision < 2 ^ 64

-- `decode` gives back a message whose values fit the wire format from the bytes that `encode` wrote,
-- and answers trailing_bytes if more bytes follow them.
pub decode-encode_block_damage :
    (m : S2CBlockDamage) (extra : List ℕ)
    → S2CBlockDamageFits m
    → decode_block_damage (encode_block_damage m ++ extra) ≡ exactly m extra
unfolding decode_block_damage encode_block_damage
decode-encode_block_damage m extra h =
    decode_with-Reads extra (
      next _ (ivec3-Reads _ h.pos)
        (next _ (word 2 h.punches) (next _ (word 8 h.revision) (done _))))

-- The values that the wire format can carry.
pub record C2SBlockBreakBeginFits (m : C2SBlockBreakBegin) : Type 0 where
  pub pos : IVec3Fits m.pos
  pub face : IVec3Fits m.face

-- `decode` gives back a message whose values fit the wire format from the bytes that `encode` wrote,
-- and answers trailing_bytes if more bytes follow them.
pub decode-encode_block_break_begin :
    (m : C2SBlockBreakBegin) (extra : List ℕ)
    → C2SBlockBreakBeginFits m
    → decode_block_break_begin (encode_block_break_begin m ++ extra) ≡ exactly m extra
unfolding decode_block_break_begin encode_block_break_begin
decode-encode_block_break_begin m extra h =
    decode_with-Reads extra (next _ (ivec3-Reads _ h.pos) (next _ (ivec3-Reads _ h.face) (done _)))

-- The values that the wire format can carry.
pub record C2SBlockBreakStopFits (m : C2SBlockBreakStop) : Type 0 where
  pub pos : IVec3Fits m.pos

-- `decode` gives back a message whose values fit the wire format from the bytes that `encode` wrote,
-- and answers trailing_bytes if more bytes follow them.
pub decode-encode_block_break_stop :
    (m : C2SBlockBreakStop) (extra : List ℕ)
    → C2SBlockBreakStopFits m
    → decode_block_break_stop (encode_block_break_stop m ++ extra) ≡ exactly m extra
unfolding decode_block_break_stop encode_block_break_stop
decode-encode_block_break_stop m extra h =
    decode_with-Reads extra (next _ (ivec3-Reads _ h.pos) (done _))

-- The values that the wire format can carry.
pub record S2CTimeOfDayFits (m : S2CTimeOfDay) : Type 0 where
  pub time_of_day : m.time_of_day < 2 ^ 32

-- `decode` gives back a message whose values fit the wire format from the bytes that `encode` wrote,
-- and answers trailing_bytes if more bytes follow them.
pub decode-encode_time_of_day :
    (m : S2CTimeOfDay) (extra : List ℕ)
    → S2CTimeOfDayFits m
    → decode_time_of_day (encode_time_of_day m ++ extra) ≡ exactly m extra
unfolding decode_time_of_day encode_time_of_day
decode-encode_time_of_day m extra h =
    decode_with-Reads extra (next _ (word 4 h.time_of_day) (done _))
