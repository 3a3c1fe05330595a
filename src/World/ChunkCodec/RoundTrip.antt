-- ===== src/World/ChunkCodec/RoundTrip.antt =====
-- src/world/chunk_codec.cpp: `rle_decode` on what `rle_encode` wrote, and on anything else.
use voxel_browser.Prelude.{
  ℕ, zero, suc, ltb, ◌+◌, ◌-◌, ◌^◌, ◌≤◌, ◌<◌, ◌≡◌, refl, sym, ap, ◌∙◌, arith, false, List, [], ◌∷◌,
  ◌++◌, none, some, ◌==◌, length, drop, replicate, Bool-cases, inl, inr, All, append_assoc,
  append-nil, length-append,
}
use voxel_browser.Protocol.ByteBuffer.{open_reader, at_end, put_le, put_varint, put_varint_loop}
use voxel_browser.Protocol.ByteBuffer.Reads.{get_varint-Gets, get_le-Gets, length-put_le}
use voxel_browser.Protocol.Result.{ok}
use voxel_browser.World.ChunkCodec.{
  count_run, rle_encode_loop, rle_encode, rle_decode_loop, check_size, decoded, rle_decode,
  max_vector_size,
}

-- The run and what follows it.
replicate-count_run :
    (b : ℕ) (bs : List ℕ) → replicate (count_run b bs) b ++ drop (count_run b bs) bs ≡ bs
unfolding count_run
replicate-count_run b [] = refl
replicate-count_run b (x ∷ bs) = elim (Bool-cases (x == b)) [
  | inl e ↦
      let q : x ≡ b = ground arith in
      rw e (ap (λ t. b ∷ t) (replicate-count_run b bs) ∙ ap (λ y. y ∷ bs) (sym q))
  | inr e ↦ rw e refl
]

length-replicate {ℓ} : {A : Type ℓ} (n : ℕ) (a : A) → length (replicate n a) ≡ n
length-replicate zero a = refl
length-replicate (suc n) a = ap suc (length-replicate n a)

length-run : (b : ℕ) (bs : List ℕ) → count_run b bs + length (drop (count_run b bs) bs) ≡ length bs
length-run b bs = omega (
  arith,
  ap length (replicate-count_run b bs),
  length-append (replicate (count_run b bs) b) (drop (count_run b bs) bs),
  length-replicate (count_run b bs) b,
)

All-drop : (n : ℕ) (bs : List ℕ) → All (λ b. b < 256) bs → All (λ b. b < 256) (drop n bs)
All-drop zero bs h = h
All-drop (suc n) [] h = h
All-drop (suc n) (b ∷ bs) h = All-drop n bs h.1

at_end-put_varint : (v : ℕ) (t : List ℕ) → at_end (open_reader (put_varint v ++ t)) ≡ false
unfolding put_varint put_varint_loop
at_end-put_varint v t = ground arith

-- One round of the decoder on one group of the encoder.
rle_decode_loop-group :
    (fuel expected run b : ℕ) (out rest : List ℕ)
    → b < 256
    → length out + run ≤ expected
    → expected < 2 ^ 63
    → rle_decode_loop (suc fuel) expected out (open_reader (put_varint run ++ (put_le 1 b ++ rest)))
      ≡ rle_decode_loop fuel expected (out ++ replicate run b) (open_reader rest)
unfolding rle_decode_loop
rle_decode_loop-group fuel expected run b out rest hb room small =
    rw
      (
        at_end-put_varint run (put_le 1 b ++ rest),
        get_varint-Gets run (omega arith) (put_le 1 b ++ rest),
        get_le-Gets 1 b (omega arith) rest,
      )
      (ground arith)

rle_decode_loop-end :
    (fuel expected : ℕ) (out : List ℕ)
    → rle_decode_loop fuel expected out (open_reader []) ≡ some (ok (out ++ [], open_reader []))
unfolding rle_decode_loop
rle_decode_loop-end zero expected out = rw (append-nil out) refl
rle_decode_loop-end (suc fuel) expected out = rw (append-nil out) refl

length-group :
    (run b : ℕ) (rest : List ℕ) → 1 + length rest ≤ length (put_varint run ++ (put_le 1 b ++ rest))
length-group run b rest = omega (
  arith,
  length-append (put_varint run) (put_le 1 b ++ rest),
  length-append (put_le 1 b) rest,
  length-put_le 1 b,
)

rle_decode_loop-rle_encode_loop :
    (k fuel expected : ℕ) (bytes out : List ℕ)
    → All (λ b. b < 256) bytes
    → length bytes ≤ k
    → length (rle_encode_loop k bytes) ≤ fuel
    → length out + length bytes ≤ expected
    → expected < 2 ^ 63
    → rle_decode_loop fuel expected out (open_reader (rle_encode_loop k bytes))
      ≡ some (ok (out ++ bytes, open_reader []))
unfolding rle_encode_loop
rle_decode_loop-rle_encode_loop zero fuel expected [] out h n f room small =
    rle_decode_loop-end fuel expected out
rle_decode_loop-rle_encode_loop zero fuel expected (b ∷ bs) out h n f room small =
    absurd (omega arith)
rle_decode_loop-rle_encode_loop (suc k) fuel expected [] out h n f room small =
    rle_decode_loop-end fuel expected out
rle_decode_loop-rle_encode_loop (suc k) zero expected (b ∷ bs) out h n f room small = absurd (
    omega
      (arith, length-group (suc (count_run b bs)) b (rle_encode_loop k (drop (count_run b bs) bs))))
rle_decode_loop-rle_encode_loop (suc k) (suc fuel) expected (b ∷ bs) out h n f room small =
    let run = count_run b bs in
    let left = drop run bs in
    let out' = out ++ replicate (suc run) b in
    let parts = length-run b bs in
    let group = length-group (suc run) b (rle_encode_loop k left) in
    let grown : length out' ≡ length out + suc run =
      length-append out (replicate (suc run) b)
      ∙ ap (λ n. length out + n) (length-replicate (suc run) b) in
    rle_decode_loop-group fuel expected (suc run) b out (rle_encode_loop k left) h.0 (omega arith)
      small
    ∙ rle_decode_loop-rle_encode_loop k fuel expected left out' (All-drop run bs h.1) (omega arith)
        (omega arith) (omega arith) small
    ∙ ap (λ (t : List ℕ). some (ok (t, open_reader [])))
        (append_assoc out (replicate (suc run) b) left
          ∙ ap (λ (t : List ℕ). out ++ (b ∷ t)) (replicate-count_run b bs))

-- `rle_decode` gives back the bytes that `rle_encode` wrote, if it is told how many there were.
pub rle_decode-rle_encode :
    (bytes : List ℕ)
    → All (λ b. b < 256) bytes
    → length bytes < 2 ^ 63
    → rle_decode (rle_encode bytes) (length bytes) ≡ some (ok bytes)
unfolding rle_decode rle_encode decoded check_size
rle_decode-rle_encode bytes h small =
    let loop =
      rle_decode_loop-rle_encode_loop (length bytes) (length (rle_encode_loop (length bytes) bytes))
        (length bytes) bytes [] h (omega arith) (omega arith) (omega arith) small in
    let fits : ltb max_vector_size (length bytes) ≡ false = ground arith in
    rw (fits, loop) (ground arith)

-- A run that wraps the sum of the sizes to 0.
rle_decode_loop-wrap :
    (fuel expected run b : ℕ) (out more : List ℕ)
    → b < 256
    → run < 2 ^ 64
    → length out + run ≡ 2 ^ 64
    → rle_decode_loop (suc fuel) expected out (open_reader (put_varint run ++ (put_le 1 b ++ more)))
      ≡ none
unfolding rle_decode_loop
rle_decode_loop-wrap fuel expected run b out more hb hr wrap =
    rw
      (
        at_end-put_varint run (put_le 1 b ++ more),
        get_varint-Gets run hr (put_le 1 b ++ more),
        get_le-Gets 1 b (omega arith) more,
        wrap,
      )
      (ground arith)

rle_decode_loop-wrapped_run :
    (fuel n a b expected : ℕ) (more : List ℕ)
    → 2 ≤ fuel
    → a < 256
    → b < 256
    → 0 < n
    → n ≤ expected
    → expected < 2 ^ 63
    → rle_decode_loop fuel expected [] (
        open_reader
          (put_varint n ++ (put_le 1 a ++ (put_varint (2 ^ 64 - n) ++ (put_le 1 b ++ more)))))
      ≡ none
rle_decode_loop-wrapped_run zero n a b expected more f ha hb pos room small = absurd (omega arith)
rle_decode_loop-wrapped_run (suc zero) n a b expected more f ha hb pos room small =
    absurd (omega arith)
rle_decode_loop-wrapped_run (suc (suc fuel)) n a b expected more f ha hb pos room small =
    rle_decode_loop-group (suc fuel) expected n a []
      (put_varint (2 ^ 64 - n) ++ (put_le 1 b ++ more)) ha (omega arith) small
    ∙ rle_decode_loop-wrap fuel expected (2 ^ 64 - n) b (replicate n a) more hb (omega arith)
        (omega (arith, length-replicate n a))

-- After a run of `n` bytes, a run of 2 ^ 64 - n passes the check of the size and makes `insert` throw,
-- whatever size at least `n` was asked for.
pub rle_decode-wrapped_run :
    (n a b expected : ℕ) (more : List ℕ)
    → a < 256
    → b < 256
    → 0 < n
    → n ≤ expected
    → expected < 2 ^ 63
    → rle_decode
        (put_varint n ++ (put_le 1 a ++ (put_varint (2 ^ 64 - n) ++ (put_le 1 b ++ more))))
        expected
      ≡ none
unfolding rle_decode decoded
rle_decode-wrapped_run n a b expected more ha hb pos room small =
    let second = put_varint (2 ^ 64 - n) ++ (put_le 1 b ++ more) in
    let fuel : 2 ≤ length (put_varint n ++ (put_le 1 a ++ second)) =
      omega (arith, length-group n a second, length-group (2 ^ 64 - n) b more) in
    let loop =
      rle_decode_loop-wrapped_run (length (put_varint n ++ (put_le 1 a ++ second))) n a b expected
        more fuel ha hb pos room small in
    let fits : ltb max_vector_size expected ≡ false = ground arith in
    rw fits (ap (decoded expected) loop)
