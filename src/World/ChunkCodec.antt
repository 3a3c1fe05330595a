-- ===== src/World/ChunkCodec.antt =====
-- inc/vb/world/chunk_codec.hpp and src/world/chunk_codec.cpp: the run-length codec of light bytes.
-- A size_t has 64 bits; a vector of bytes holds at most 2 ^ 63 - 1, and `reserve` and `insert` past that
-- throw. An allocation below that bound which the machine cannot serve is not modelled.
pub mod RoundTrip
pub mod Fuel
use voxel_browser.Prelude.{
  ℕ, zero, suc, ◌+◌, ◌-◌, ◌%◌, ◌^◌, Bool, true, false, ◌||◌, Option, none, some, List, [], ◌∷◌,
  ◌++◌, ltb, ◌==◌, if◌then◌else◌, length, drop, replicate,
}
use voxel_browser.Protocol.ByteBuffer.{
  Reader, open_reader, failed, at_end, put_le, put_varint, get_u8, get_varint, length_exceeded,
  malformed,
}
use voxel_browser.Protocol.Result.{Result, ok, err}

-- How many bytes at the front are `value`.
unfoldable pub count_run : ℕ → List ℕ → ℕ
count_run value [] = 0
count_run value (b ∷ bs) = let run = count_run value bs in if b == value then suc run else 0

-- The loop of `rle_encode` on what is left of its input, with fuel.
unfoldable pub rle_encode_loop : ℕ → List ℕ → List ℕ
rle_encode_loop zero bytes = []
rle_encode_loop (suc fuel) [] = []
rle_encode_loop (suc fuel) (b ∷ bs) =
    put_varint (suc (count_run b bs))
    ++ (put_le 1 b ++ rle_encode_loop fuel (drop (count_run b bs) bs))

unfoldable pub rle_encode : List ℕ → List ℕ
rle_encode bytes = rle_encode_loop (length bytes) bytes

abbrev pub max_vector_size : ℕ
max_vector_size = 2 ^ 63 - 1

-- The loop of `rle_decode` with fuel; `none` is the exception of `out.insert`.
unfoldable pub rle_decode_loop : ℕ → ℕ → List ℕ → Reader → Option (Result (List ℕ × Reader))
rle_decode_loop zero expected_size out r = some (ok (out, r))
rle_decode_loop (suc fuel) expected_size out r =
    let (run, r') = get_varint r in
    let (value, r'') = get_u8 r' in
    let rest = rle_decode_loop fuel expected_size (out ++ replicate run value) r'' in
    if at_end r || failed r
    then some (ok (out, r))
    else if failed r''
    then some (ok (out, r''))
    else if ltb expected_size ((length out + run) % 2 ^ 64)
    then some (err length_exceeded)
    else if ltb max_vector_size (length out + run)
    then none
    else rest

-- What `rle_decode` makes of the bytes and the reader that the loop left.
unfoldable pub check_size : ℕ → List ℕ → Reader → Result (List ℕ)
check_size expected_size out r = elim r.error [
  | some e ↦ err e
  | none ↦ if length out == expected_size then ok out else err malformed
]

unfoldable pub decoded : ℕ → Option (Result (List ℕ × Reader)) → Option (Result (List ℕ))
decoded expected_size none = none
decoded expected_size (some (err e)) = some (err e)
decoded expected_size (some (ok (out, r))) = some (check_size expected_size out r)

-- `none` is the exception of `out.reserve` or of `out.insert`.
unfoldable pub rle_decode : List ℕ → ℕ → Option (Result (List ℕ))
rle_decode bytes expected_size =
    if ltb max_vector_size expected_size
    then none
    else decoded expected_size (rle_decode_loop (length bytes) expected_size [] (open_reader bytes))
