-- ===== src/World/Examples.antt =====
-- The theorems of the voxel world at concrete stores.
use voxel_browser.World.ChunkPayload.{read_palette, read_runs}
use voxel_browser.World.ChunkPayload.Fuel.{RunsEnded, read_runs-payload}
use voxel_browser.Prelude.{ℕ, ◌<◌, ◌≡◌, refl, not, [], ◌∷◌, none, arith, ◌==◌, ◌≢◌, replicate}
use voxel_browser.World.PalettedChunkStore.{
  PalettedChunkStore, get, set_block, fill, uniform_value, uniform_from, read_raw, chunk_volume,
}
use voxel_browser.World.PalettedChunkStore.{compact, words_for}
use voxel_browser.World.PalettedChunkStore.Raw.{one}
use voxel_browser.World.PalettedChunkStore.Repack.{read_raw_bound}
use voxel_browser.World.PalettedChunkStore.Compact.{SameVoxels, compact-SameVoxels}
use voxel_browser.Prelude.{◌++◌, ◌^◌, ◌-◌, some}
use voxel_browser.Protocol.ByteBuffer.{
  put_varint, put_le, get_varint, get_varint_loop, get_le, ensure, le_value,
}
use voxel_browser.Prelude.{◌+◌, false}
use voxel_browser.Protocol.ByteBuffer.{open_reader, failed}
use voxel_browser.World.ChunkCodec.Fuel.{Ended, rle_decode_loop-ends}
use voxel_browser.Protocol.Result.{ok}
use voxel_browser.World.ChunkCodec.{rle_encode, rle_decode, rle_decode_loop, decoded, check_size}
use voxel_browser.World.ChunkCodec.RoundTrip.{rle_decode-rle_encode, rle_decode-wrapped_run}
use voxel_browser.World.PalettedChunkStore.Palette.{IsStore}
use voxel_browser.World.PalettedChunkStore.Access.{
  get-set_block, set_block-IsStore, get-fill, uniform_value-some, uniform_value-none,
}

-- A chunk of one block.
abbrev stone : PalettedChunkStore
stone = record { palette = 7 ∷ []; words = []; bits_per_index = 0 }

stone-IsStore : IsStore stone
unfolding fill
stone-IsStore = (get-fill stone 7 0).0

get-set_block_example : get (set_block stone 5 9).0 6 ≡ get stone 6
get-set_block_example =
    get-set_block stone 5 9 6 stone-IsStore (omega arith) (omega arith) (omega arith)

set_block-IsStore_example :
    IsStore (set_block stone 5 9).0 × ((set_block stone 5 9).1 ≡ not (get stone 5 == 9))
set_block-IsStore_example = set_block-IsStore stone 5 9 stone-IsStore (omega arith) (omega arith)

get-fill_example : IsStore (fill 3 stone) × (get (fill 3 stone) 100 ≡ 3)
get-fill_example = get-fill stone 3 100

uniform_value-some_example : get stone 32767 ≡ 7
unfolding uniform_value
uniform_value-some_example = uniform_value-some stone 7 32767 refl (omega arith)

-- Voxel 1 has block 9, the others block 7, at one bit a voxel.
abbrev two_blocks : PalettedChunkStore
two_blocks = record { palette = 7 ∷ 9 ∷ []; words = 2 ∷ replicate 511 0; bits_per_index = 1 }

two_blocks_mixed : uniform_value two_blocks ≡ none
unfolding uniform_value uniform_from get read_raw
two_blocks_mixed = refl

uniform_value-none_example : (i : ℕ) × (i < chunk_volume) × (get two_blocks i ≢ get two_blocks 0)
uniform_value-none_example = uniform_value-none two_blocks two_blocks_mixed

two_blocks-IsStore : IsStore two_blocks
unfolding words_for
two_blocks-IsStore = record {
  nonempty = omega arith;
  fits = omega arith;
  size = refl;
  width = λ e. one;
  indices = λ i h. read_raw_bound two_blocks i;
}

compact-SameVoxels_example : SameVoxels two_blocks (compact two_blocks)
compact-SameVoxels_example = compact-SameVoxels two_blocks two_blocks-IsStore

rle_decode-rle_encode_example :
    rle_decode (rle_encode (5 ∷ 5 ∷ 5 ∷ 0 ∷ [])) 4 ≡ some (ok (5 ∷ 5 ∷ 5 ∷ 0 ∷ []))
rle_decode-rle_encode_example =
    rle_decode-rle_encode (5 ∷ 5 ∷ 5 ∷ 0 ∷ [])
      (omega arith, (omega arith, (omega arith, (omega arith, tt)))) (omega arith)

three_bytes : rle_decode (3 ∷ 8 ∷ []) 3 ≡ some (ok (8 ∷ 8 ∷ 8 ∷ []))
unfolding rle_decode rle_decode_loop decoded check_size get_varint get_varint_loop get_le ensure
    le_value
three_bytes = refl

rle_decode-wrapped_run_example :
    rle_decode
      (put_varint 1 ++ (put_le 1 9 ++ (put_varint (2 ^ 64 - 1) ++ (put_le 1 9 ++ []))))
      32768
    ≡ none
rle_decode-wrapped_run_example =
    rle_decode-wrapped_run 1 9 9 32768 [] (omega arith) (omega arith) (omega arith) (omega arith)
      (omega arith)

rle_decode_loop-ends_example :
    Ended (rle_decode_loop 2 3 [] (open_reader (3 ∷ 8 ∷ [])))
    × (rle_decode_loop (2 + 5) 3 [] (open_reader (3 ∷ 8 ∷ []))
        ≡ rle_decode_loop 2 3 [] (open_reader (3 ∷ 8 ∷ [])))
rle_decode_loop-ends_example = rle_decode_loop-ends (3 ∷ 8 ∷ []) 3 5

-- Its runs: five voxels of block 0 of its palette, and no more.
short_payload-read : failed (get_varint (open_reader (1 ∷ 7 ∷ 0 ∷ 5 ∷ 0 ∷ []))).1 ≡ false
unfolding get_varint get_varint_loop ensure le_value
short_payload-read = refl

read_runs-payload_example :
    let (palette_len, r) = get_varint (open_reader (1 ∷ 7 ∷ 0 ∷ 5 ∷ 0 ∷ [])) in
    let (palette, r') = read_palette palette_len r in RunsEnded (read_runs 5 palette 0 stone r')
read_runs-payload_example = read_runs-payload (1 ∷ 7 ∷ 0 ∷ 5 ∷ 0 ∷ []) stone short_payload-read
