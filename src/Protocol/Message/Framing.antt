-- ===== src/Protocol/Message/Framing.antt =====
-- inc/vb/protocol/message.hpp: `read_frame` on what `write_frame` appended, whole or cut short.
use voxel_browser.Prelude.{
  ℕ, ◌+◌, ◌%◌, ◌^◌, ◌≤◌, ◌<◌, ◌≡◌, refl, sym, ap, subst, ◌∙◌, List, ◌∷◌, ◌++◌, arith, ltb, le→ltb,
  lt→ltb, length, take, drop, length-append, take-append, drop-append, append_assoc, append-nil,
  if◌then◌else◌, append-eq_append, dec_lt,
}
use voxel_browser.Protocol.ByteBuffer.{put_le, get_le, open_reader, short_buffer}
use voxel_browser.Protocol.ByteBuffer.Reads.{get_le-Gets, length-put_le}
use voxel_browser.Protocol.Result.{ok, err}
use voxel_browser.Protocol.Message.{write_frame, read_frame, envelope_bytes, max_payload_bytes}

abbrev header_bytes : ℕ → ℕ → ℕ → List ℕ
header_bytes type flags len = put_le 2 type ++ (put_le 2 flags ++ put_le 4 len)

length-header_bytes : (type flags len : ℕ) → length (header_bytes type flags len) ≡ 8
length-header_bytes type flags len = omega (
  arith,
  length-append (put_le 2 type) (put_le 2 flags ++ put_le 4 len),
  length-append (put_le 2 flags) (put_le 4 len),
  length-put_le 2 type,
  length-put_le 2 flags,
  length-put_le 4 len,
)

write_frame-header :
    (type flags : ℕ) (payload : List ℕ)
    → length payload < 2 ^ 32
    → write_frame type payload flags ≡ header_bytes type flags (length payload) ++ payload
unfolding write_frame
write_frame-header type flags payload h = rw (append_assoc, append_assoc, append-nil, small) refl
  where
    small : length payload % 2 ^ 32 ≡ length payload
    small = omega arith

-- The three reads of the header, whatever follows it.
header_reads :
    (type flags len : ℕ) (rest : List ℕ)
    → type < 2 ^ 16
    → flags < 2 ^ 16
    → len < 2 ^ 32
    → (get_le 2 (open_reader (header_bytes type flags len ++ rest))
        ≡ (type, open_reader (put_le 2 flags ++ (put_le 4 len ++ rest))))
      × (get_le 2 (open_reader (put_le 2 flags ++ (put_le 4 len ++ rest)))
          ≡ (flags, open_reader (put_le 4 len ++ rest)))
      × (get_le 4 (open_reader (put_le 4 len ++ rest)) ≡ (len, open_reader rest))
header_reads type flags len rest ht hf hl = (
  rw (append_assoc, append_assoc)
      (get_le-Gets 2 type ht (put_le 2 flags ++ (put_le 4 len ++ rest))),
  get_le-Gets 2 flags hf (put_le 4 len ++ rest),
  get_le-Gets 4 len hl rest,
)

-- `read_frame` once the header is there: it goes by the lengths alone.
read_frame-header :
    (type flags len : ℕ) (rest : List ℕ)
    → type < 2 ^ 16
    → flags < 2 ^ 16
    → len ≤ max_payload_bytes
    → read_frame (header_bytes type flags len ++ rest) ≡ (
        if ltb (length rest) len then (err short_buffer, 0) else (
          ok (record {
            header = record { type = type; flags = flags; payload_len = len };
            payload = take len rest;
          }),
          envelope_bytes + len,
        ))
unfolding read_frame
read_frame-header type flags len rest ht hf hl =
    let (r1, r2, r3) = header_reads type flags len rest ht hf (omega arith) in
    let l = length-append (header_bytes type flags len) rest in
    let k = length-header_bytes type flags len in
    let d : drop 8 (header_bytes type flags len ++ rest) ≡ rest =
      subst (λ n. drop n (header_bytes type flags len ++ rest) ≡ rest) k
        (drop-append (header_bytes type flags len) rest) in
    rw (r1, r2, r3, d) (ground (arith, l, k))

-- For a type and flags of 16 bits and a payload of at most 16 MiB, `read_frame` returns the frame that
-- `write_frame` appended and its whole size, whatever follows it.
pub read_frame-write_frame :
    (type flags : ℕ) (payload more : List ℕ)
    → type < 2 ^ 16
    → flags < 2 ^ 16
    → length payload ≤ max_payload_bytes
    → read_frame (write_frame type payload flags ++ more) ≡ (
      ok (record {
        header = record { type = type; flags = flags; payload_len = length payload };
        payload = payload;
      }),
      envelope_bytes + length payload,
    )
read_frame-write_frame type flags payload more ht hf hp =
    rw
      (
        write_frame-header type flags payload (omega arith),
        append_assoc (header_bytes type flags (length payload)) payload more,
        read_frame-header type flags (length payload) (payload ++ more) ht hf hp,
        le→ltb (length (payload ++ more)) (length payload)
            (omega (arith, length-append payload more)),
        take-append payload more,
      )
      refl

read_frame_short : (front : List ℕ) → length front < 8 → read_frame front ≡ (err short_buffer, 0)
unfolding read_frame
read_frame_short front h = rw (lt→ltb (length front) 8 h) refl

-- Of such a frame that is cut anywhere, `read_frame` takes nothing and answers that it is short.
pub read_frame-truncated :
    (type flags : ℕ) (payload front back : List ℕ) (b : ℕ)
    → type < 2 ^ 16
    → flags < 2 ^ 16
    → length payload ≤ max_payload_bytes
    → write_frame type payload flags ≡ front ++ (b ∷ back)
    → read_frame front ≡ (err short_buffer, 0)
read_frame-truncated type flags payload front back b ht hf hp e = elim (dec_lt (length front) 8) [
  | yes h ↦ read_frame_short front h
  | no h ↦
      let head : List ℕ = header_bytes type flags (length payload) in
      let n : length head ≡ 8 = length-header_bytes type flags (length payload) in
      let e' : head ++ payload ≡ front ++ (b ∷ back) =
        sym (write_frame-header type flags payload (omega arith)) ∙ e in
      let split : front ≡ head ++ drop (length head) front =
        append-eq_append head payload front (b ∷ back) e' (omega arith) in
      let rest : List ℕ = drop (length head) front in
      let short : length rest < length payload = omega (
        arith,
        ap length e',
        ap length split,
        length-append head payload,
        length-append front (b ∷ back),
        length-append head rest,
      ) in
      subst (λ f. read_frame f ≡ (err short_buffer, 0)) (sym split)
        (rw
          (
            read_frame-header type flags (length payload) rest ht hf hp,
            lt→ltb (length rest) (length payload) short,
          )
          refl)
]
