-- ===== src/World/ChunkPayload/Fuel.antt =====
-- src/world/chunk_codec.cpp: the rounds of the loop over the runs in `decode_chunk_payload`.
use voxel_browser.Prelude.{
  ℕ, zero, suc, ◌+◌, ◌%◌, ◌^◌, ◌≤◌, ◌<◌, ◌≡◌, arith, true, false, ◌||◌, some, List, length, take,
  drop, ltb, leb, ◌==◌, if◌then◌else◌, get_or, Bool-cases, Option-cases, inl, inr,
}
use voxel_browser.Protocol.ByteBuffer.{
  Reader, open_reader, get_le, failed, fail, ensure, get_varint, get_varint_loop, add_group,
  le_value,
}
use voxel_browser.World.PalettedChunkStore.{PalettedChunkStore, chunk_volume}
use voxel_browser.World.ChunkCodec.Fuel.{
  length-get_varint, length-get_varint_loop, length-drop_one, length-drop,
}
use voxel_browser.World.ChunkPayload.{
  Outcome, loaded, refused, throws, out_of_bounds, write_run, read_runs, read_palette,
}

-- A varint that was read took a byte.
length-get_varint_loop-more :
    (rounds shift result : ℕ) (r : Reader)
    → failed (get_varint_loop rounds shift result r).1 ≡ false
    → suc (length (get_varint_loop rounds shift result r).1.rest) ≤ length r.rest
unfolding get_varint_loop ensure fail
length-get_varint_loop-more zero shift result r h = absurd (ground (arith, h))
length-get_varint_loop-more (suc rounds) shift result r h = ground (
  arith,
  length-drop_one r.rest,
  length-get_varint_loop rounds (shift + 7) (add_group result (le_value (take 1 r.rest)) shift)
      (record r { rest = drop 1 r.rest }),
)

length-get_varint-more :
    (r : Reader)
    → failed (get_varint r).1 ≡ false
    → suc (length (get_varint r).1.rest) ≤ length r.rest
unfolding get_varint
length-get_varint-more r h = length-get_varint_loop-more 10 0 0 r h

-- How the loop stopped: by an error, by a write out of bounds, or by its own condition, with all voxels written
-- or with a reader that has failed.
abbrev pub RunsEnded : Outcome (ℕ × PalettedChunkStore × Reader) → Type 0
RunsEnded (loaded (written, store, r)) = (leb chunk_volume written || failed r) ≡ true
RunsEnded (refused e) = Unit
RunsEnded throws = Unit
RunsEnded out_of_bounds = Unit

-- With more rounds than there are bytes the loop never stops for want of rounds.
read_runs-ends :
    (fuel : ℕ) (palette : List ℕ) (written : ℕ) (store : PalettedChunkStore) (r : Reader)
    → length r.rest < fuel
    → RunsEnded (read_runs fuel palette written store r)
unfolding read_runs
read_runs-ends zero palette written store r h = absurd (omega arith)
read_runs-ends (suc fuel) palette written store r h =
    let run = (get_varint r).0 in
    let r' = (get_varint r).1 in
    let idx = (get_varint r').0 in
    let r'' = (get_varint r').1 in
    let next = (written + run) % 2 ^ 64 in
    let after =
      if idx == 0 then some store else write_run run written (get_or palette idx 0) store in
    elim (Bool-cases (leb chunk_volume written || failed r)) [
      | inl e ↦ rw e e
      | inr e ↦ elim (Bool-cases (failed r'')) [
        | inl e' ↦ rw (e, e') (ground (arith, e'))
        | inr e' ↦ elim (Bool-cases (leb (length palette) idx || ltb chunk_volume next)) [
          | inl a ↦ rw (e, e', a) tt
          | inr a ↦ elim (Option-cases after) [
            | inl n ↦ rw (e, e', a, n) tt
            | inr (store', n) ↦
                let less = length-get_varint-more r' e' in
                let enough : length r''.rest < fuel = omega (arith, less, length-get_varint r) in
                rw (e, e', a, n) (read_runs-ends fuel palette next store' r'' enough)
          ]
        ]
      ]
    ]

length-get_le : (n : ℕ) (r : Reader) → length (get_le n r).1.rest ≤ length r.rest
unfolding get_le ensure fail
length-get_le n r = ground (arith, length-drop n r.rest)

length-read_palette : (n : ℕ) (r : Reader) → length (read_palette n r).1.rest ≤ length r.rest
unfolding read_palette
length-read_palette zero r = omega arith
length-read_palette (suc n) r =
    omega (arith, length-get_le 2 r, length-read_palette n (get_le 2 r).1)

-- Whatever the payload and the store, once the size of the palette is read and the palette after it, the loop
-- over the runs has, with the rounds that `decode_chunk_payload` gives it, stopped by an error, by a write out
-- of bounds or by its own condition, never for want of rounds.
pub read_runs-payload :
    (payload : List ℕ) (store : PalettedChunkStore)
    → failed (get_varint (open_reader payload)).1 ≡ false
    → let (palette_len, r) = get_varint (open_reader payload) in
      let (palette, r') = read_palette palette_len r in
      RunsEnded (read_runs (length payload) palette 0 store r')
read_runs-payload payload store h =
    let (palette_len, r) = get_varint (open_reader payload) in
    let (palette, r') = read_palette palette_len r in
    read_runs-ends (length payload) palette 0 store r' (
      omega
        (arith, length-get_varint-more (open_reader payload) h, length-read_palette palette_len r))
