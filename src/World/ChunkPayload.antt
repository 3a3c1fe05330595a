-- ===== src/World/ChunkPayload.antt =====
-- src/world/chunk_codec.cpp: `encode_chunk_payload` and `decode_chunk_payload`.
-- A chunk is its blocks and its light bytes. Where the source answers an error, it leaves what it has
-- already written in the chunk that it was given; the model has only the error.
pub mod WrappedRun
pub mod Fuel
use voxel_browser.Prelude.{
  ℕ, zero, suc, ◌+◌, ◌%◌, ◌^◌, Bool, true, false, ◌||◌, ◌&&◌, not, Option, none, some, List, [],
  ◌∷◌, ◌++◌, ◌-◌, map, ltb, leb, ◌==◌, if◌then◌else◌, length, get_or, drop,
}
use voxel_browser.Protocol.ByteBuffer.{
  Reader, ProtocolError, open_reader, failed, put_le, put_varint, get_le, get_varint, get_bytes,
  expect_consumed, malformed,
}
use voxel_browser.Protocol.Result.{Result, ok, err, concat}
use voxel_browser.World.PalettedChunkStore.{
  PalettedChunkStore, chunk_volume, find_index, get, fill, set_block,
}
use voxel_browser.World.ChunkCodec.{count_run, rle_encode, rle_decode}

pub record Chunk : Type 0 where
  pub blocks : PalettedChunkStore
  pub light_volume : List ℕ

unfoldable pub index_in : List ℕ → ℕ → ℕ
index_in palette block = elim (find_index palette block) [ none ↦ 0 | some i ↦ i ]

-- The palette indices of so many voxels from one on.
unfoldable pub voxel_indices : ℕ → ℕ → PalettedChunkStore → List ℕ
voxel_indices zero i store = []
voxel_indices (suc n) i store = index_in store.palette (get store i) ∷ voxel_indices n (suc i) store

-- The loop over the voxels, on the indices that are left, with fuel: their number is enough.
unfoldable pub encode_runs : ℕ → List ℕ → List ℕ
encode_runs zero indices = []
encode_runs (suc fuel) [] = []
encode_runs (suc fuel) (idx ∷ indices) =
    let run = count_run idx indices in
    put_varint (suc run) ++ (put_varint idx ++ encode_runs fuel (drop run indices))

unfoldable pub encode_chunk_payload : Chunk → List ℕ
encode_chunk_payload chunk =
    let palette = chunk.blocks.palette in
    let light_rle = rle_encode chunk.light_volume in
    concat (
      put_varint (length palette)
      ∷ concat (map (put_le 2) palette)
      ∷ encode_runs chunk_volume (voxel_indices chunk_volume 0 chunk.blocks)
      ∷ put_varint (length light_rle)
      ∷ light_rle
      ∷ [])

-- `throws`: the exception of `rle_decode`. `out_of_bounds`: a read or a write past the last voxel.
pub data Outcome (A : Type 0) : Type 0 where
  loaded : A → Outcome A
  refused : ProtocolError → Outcome A
  throws out_of_bounds : Outcome A

unfoldable pub read_palette : ℕ → Reader → List ℕ × Reader
read_palette zero r = ([], r)
read_palette (suc n) r =
    let (id, r') = get_le 2 r in let (ids, r'') = read_palette n r' in (id ∷ ids, r'')

-- The voxels of a run, from one on.
unfoldable pub set_run : ℕ → ℕ → ℕ → PalettedChunkStore → PalettedChunkStore
set_run zero at block store = store
set_run (suc n) at block store = set_run n (suc at) block (set_block store at block).0

-- `set` writes nothing where the store has one block only, and this one.
unfoldable pub holds_only : PalettedChunkStore → ℕ → Bool
holds_only store block = store.bits_per_index == 0 && get_or store.palette 0 0 == block

-- The store after a run of a block that starts inside the chunk. A run that goes on past the last voxel reads
-- or writes there (`none`), as its first write inside has given the store a width, if it had none, and no
-- write takes that away.
unfoldable pub write_run : ℕ → ℕ → ℕ → PalettedChunkStore → Option PalettedChunkStore
write_run run at block store =
    if holds_only store block
    then some store
    else if leb run (chunk_volume - at)
    then some (set_run run at block store)
    else none

-- The loop over the runs with fuel; the voxels written, the store and the reader.
unfoldable pub read_runs :
    ℕ → List ℕ → ℕ → PalettedChunkStore → Reader → Outcome (ℕ × PalettedChunkStore × Reader)
read_runs zero palette written store r = loaded (written, store, r)
read_runs (suc fuel) palette written store r =
    let (run, r') = get_varint r in
    let (idx, r'') = get_varint r' in
    let next = (written + run) % 2 ^ 64 in
    let after =
      if idx == 0 then some store else write_run run written (get_or palette idx 0) store in
    if leb chunk_volume written || failed r
    then loaded (written, store, r)
    else if failed r''
    then loaded (written, store, r'')
    else if leb (length palette) idx || ltb chunk_volume next
    then refused malformed
    else elim after [ none ↦ out_of_bounds | some store' ↦ read_runs fuel palette next store' r'' ]

-- The light and the end, once the voxels are there.
unfoldable pub read_light : ℕ × PalettedChunkStore × Reader → Outcome Chunk
read_light (written, store, r) =
    let (light_len, r') = get_varint r in
    let (light_rle, r'') = get_bytes light_len r' in
    let end = expect_consumed r'' in
    elim r.error [
      | some e ↦ refused e
      | none ↦ if not (written == chunk_volume) then refused malformed else elim r'.error [
        | some e ↦ refused e
        | none ↦ elim r''.error [
          | some e ↦ refused e
          | none ↦ elim (rle_decode light_rle chunk_volume) [
            | none ↦ throws
            | some (err e) ↦ refused e
            | some (ok light) ↦ elim end.error [
              | some e ↦ refused e
              | none ↦ loaded (record { blocks = store; light_volume = light })
            ]
          ]
        ]
      ]
    ]

unfoldable pub after_runs : Outcome (ℕ × PalettedChunkStore × Reader) → Outcome Chunk
after_runs (loaded state) = read_light state
after_runs (refused e) = refused e
after_runs throws = throws
after_runs out_of_bounds = out_of_bounds

-- What follows the palette.
unfoldable pub decode_blocks : ℕ → List ℕ → Chunk → Reader → Outcome Chunk
decode_blocks fuel palette out r = elim r.error [
  | some e ↦ refused e
  | none ↦ after_runs (read_runs fuel palette 0 (fill (get_or palette 0 0) out.blocks) r)
]

-- Each round of the loop over the runs takes at least a byte, so the fuel is enough.
unfoldable pub decode_chunk_payload : List ℕ → Chunk → Outcome Chunk
decode_chunk_payload payload out =
    let (palette_len, r) = get_varint (open_reader payload) in
    let (palette, r') = read_palette palette_len r in
    if failed r || palette_len == 0 || ltb 65536 palette_len
    then refused malformed
    else decode_blocks (length payload) palette out r'
