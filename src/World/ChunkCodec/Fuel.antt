-- ===== src/World/ChunkCodec/Fuel.antt =====
-- src/world/chunk_codec.cpp: the rounds of the loop of `rle_decode`.
use voxel_browser.Prelude.{
  ℕ, zero, suc, ◌||◌, none, ltb, ◌%◌, ◌^◌, Option, ◌+◌, ◌≤◌, ◌≡◌, refl, ap, ◌∙◌, arith, true, false,
  List, [], ◌∷◌, ◌++◌, some, length, take, drop, replicate, Bool-cases, inl, inr,
}
use voxel_browser.Protocol.ByteBuffer.{
  Reader, open_reader, failed, fail, at_end, ensure, get_le, get_u8, get_varint, get_varint_loop,
  add_group, le_value,
}
use voxel_browser.Protocol.Result.{Result, ok, err}
use voxel_browser.World.ChunkCodec.{rle_decode_loop, max_vector_size}

pub length-drop : (n : ℕ) (xs : List ℕ) → length (drop n xs) ≤ length xs
length-drop zero xs = omega arith
length-drop (suc n) [] = omega arith
length-drop (suc n) (x ∷ xs) = omega (arith, length-drop n xs)

pub length-get_varint_loop :
    (rounds shift result : ℕ) (r : Reader)
    → length (get_varint_loop rounds shift result r).1.rest ≤ length r.rest
unfolding get_varint_loop ensure fail
length-get_varint_loop zero shift result r = ground arith
length-get_varint_loop (suc rounds) shift result r = ground (
  arith,
  length-drop 1 r.rest,
  length-get_varint_loop rounds (shift + 7) (add_group result (le_value (take 1 r.rest)) shift)
      (record r { rest = drop 1 r.rest }),
)

pub length-get_varint : (r : Reader) → length (get_varint r).1.rest ≤ length r.rest
unfolding get_varint
length-get_varint r = length-get_varint_loop 10 0 0 r

pub length-drop_one : (xs : List ℕ) → 1 ≤ length xs → suc (length (drop 1 xs)) ≤ length xs
length-drop_one [] h = absurd (omega arith)
length-drop_one (x ∷ xs) h = omega arith

length-get_u8 :
    (r : Reader) → failed (get_u8 r).1 ≡ false → suc (length (get_u8 r).1.rest) ≤ length r.rest
unfolding get_le ensure fail
length-get_u8 r h = ground (arith, length-drop_one r.rest)

at_end-short : (r : Reader) → length r.rest ≤ 0 → at_end r ≡ true
at_end-short r h = short r.rest h
  where
    short : (xs : List ℕ) → length xs ≤ 0 → at_end (open_reader xs) ≡ true
    short [] l = refl
    short (x ∷ xs) l = absurd (omega arith)

rle_decode_loop-at_end :
    (fuel expected : ℕ) (out : List ℕ) (r : Reader)
    → at_end r ≡ true
    → rle_decode_loop fuel expected out r ≡ some (ok (out, r))
unfolding rle_decode_loop
rle_decode_loop-at_end zero expected out r e = refl
rle_decode_loop-at_end (suc fuel) expected out r e = rw e refl

rle_decode_loop-more_fuel :
    (fuel more expected : ℕ) (out : List ℕ) (r : Reader)
    → length r.rest ≤ fuel
    → rle_decode_loop (fuel + more) expected out r ≡ rle_decode_loop fuel expected out r
unfolding rle_decode_loop
rle_decode_loop-more_fuel zero more expected out r h =
    rle_decode_loop-at_end (0 + more) expected out r (at_end-short r h)
rle_decode_loop-more_fuel (suc fuel) more expected out r h =
    let r' = (get_varint r).1 in
    let (value, r'') = get_u8 r' in
    let out' = out ++ replicate (get_varint r).0 value in
    let shape : suc fuel + more ≡ suc (fuel + more) = omega arith in
    ap (λ n. rle_decode_loop n expected out r) shape ∙ (elim (Bool-cases (failed r'')) [
      | inl e ↦ rw e refl
      | inr e ↦
          let less = length-get_u8 r' e in
          let enough : length r''.rest ≤ fuel = omega (arith, less, length-get_varint r) in
          rw (rle_decode_loop-more_fuel fuel more expected out' r'' enough) refl
    ])

-- How the loop stopped: by an exception, by an error, or by its own condition, at the end of the bytes or
-- with a reader that has failed.
abbrev pub Ended : Option (Result (List ℕ × Reader)) → Type 0
Ended none = Unit
Ended (some (err e)) = Unit
Ended (some (ok (out, r))) = (at_end r || failed r) ≡ true

rle_decode_loop-Ended :
    (fuel expected : ℕ) (out : List ℕ) (r : Reader)
    → length r.rest ≤ fuel
    → Ended (rle_decode_loop fuel expected out r)
unfolding rle_decode_loop
rle_decode_loop-Ended zero expected out r h = rw (at_end-short r h) refl
rle_decode_loop-Ended (suc fuel) expected out r h =
    let r' = (get_varint r).1 in
    let (value, r'') = get_u8 r' in
    let out' = out ++ replicate (get_varint r).0 value in
    elim (Bool-cases (at_end r || failed r)) [
      | inl e ↦ rw e e
      | inr e ↦ elim (Bool-cases (failed r'')) [
        | inl e' ↦ rw (e, e') (ground (arith, e'))
        | inr e' ↦
            let less = length-get_u8 r' e' in
            let enough : length r''.rest ≤ fuel = omega (arith, less, length-get_varint r) in
            let sum = length out + (get_varint r).0 in
            elim (Bool-cases (ltb expected (sum % 2 ^ 64))) [
              | inl a ↦ rw (e, e', a) tt
              | inr a ↦ elim (Bool-cases (ltb max_vector_size sum)) [
                | inl b ↦ rw (e, e', a, b) tt
                | inr b ↦ rw (e, e', a, b) (rle_decode_loop-Ended fuel expected out' r'' enough)
              ]
            ]
      ]
    ]

-- The loop of `rle_decode` ends: whatever the bytes and the size asked for, with one round for each byte it
-- has stopped by an exception, by an error or by its own condition, and more rounds change nothing.
pub rle_decode_loop-ends :
    (bytes : List ℕ) (expected more : ℕ)
    → Ended (rle_decode_loop (length bytes) expected [] (open_reader bytes))
      × (rle_decode_loop (length bytes + more) expected [] (open_reader bytes)
          ≡ rle_decode_loop (length bytes) expected [] (open_reader bytes))
rle_decode_loop-ends bytes expected more = (
  rle_decode_loop-Ended (length bytes) expected [] (open_reader bytes) (omega arith),
  rle_decode_loop-more_fuel (length bytes) more expected [] (open_reader bytes) (omega arith),
)
