-- ===== src/World/ChunkPayload/WrappedRun.antt =====
-- src/world/chunk_codec.cpp: a run of voxels that wraps the check of its end.
use voxel_browser.Prelude.{ℕ, ◌-◌, ◌^◌, List, ◌++◌}
use voxel_browser.Protocol.ByteBuffer.{put_le, put_varint}
use voxel_browser.World.PalettedChunkStore.{PalettedChunkStore}

abbrev pub wrapping_payload : (a b n : ℕ) → List ℕ → List ℕ
wrapping_payload a b n more =
    put_varint 2
    ++ (put_le 2 a
        ++ (put_le 2 b
            ++ (put_varint n
                ++ (put_varint 0 ++ (put_varint (2 ^ 64 - n) ++ (put_varint 1 ++ more))))))
