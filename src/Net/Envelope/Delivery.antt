-- ===== src/Net/Envelope/Delivery.antt =====
-- inc/vb/net/handshake.hpp and src/net/session.cpp: a payload on its way through the envelope.
use voxel_browser.Prelude.{
  ℕ, ◌+◌, ◌^◌, ◌≤◌, ◌<◌, ◌≡◌, refl, ◌∙◌, Bool, true, false, ◌&&◌, List, inl, inr, arith, ltb, leb,
  length, Bool-cases, append-nil,
}
use voxel_browser.Protocol.Result.{ok}
use voxel_browser.Protocol.Message.{Frame, write_frame, read_frame, max_payload_bytes}
use voxel_browser.Protocol.Message.Framing.{read_frame-write_frame}
use voxel_browser.Protocol.Compression.{Lz4, Lz4Laws, compress_lz4, decompress_lz4}
use voxel_browser.Protocol.Compression.RoundTrip.{decompress_lz4-compress_lz4}
use voxel_browser.Net.Envelope.{
  frame_message, opened, decompress_frame_payload, open_frame, compression_threshold_bytes,
}

read_whole :
    (type flags : ℕ) (payload : List ℕ)
    → type < 2 ^ 16
    → flags < 2 ^ 16
    → length payload ≤ max_payload_bytes
    → read_frame (write_frame type payload flags) ≡ (
      ok (record {
        header = record { type = type; flags = flags; payload_len = length payload };
        payload = payload;
      }),
      8 + length payload,
    )
read_whole type flags payload ht hf hp =
    rw append-nil at (read_frame-write_frame type flags payload List.[] ht hf hp)

open_frame_step :
    (lz4 : Lz4) (bytes : List ℕ) (f : Frame) (n : ℕ)
    → read_frame bytes ≡ (ok f, n)
    → open_frame lz4 bytes ≡ decompress_frame_payload lz4 f
unfolding open_frame
open_frame_step lz4 bytes f n e = rw (e, open_frame) refl

abbrev frame : ℕ → ℕ → ℕ → List ℕ → Frame
frame type flags len payload = record {
  header = record { type = type; flags = flags; payload_len = len };
  payload = payload;
}

decompressed :
    (lz4 : Lz4) (type len : ℕ) (payload storage : List ℕ)
    → decompress_lz4 lz4 payload ≡ ok storage
    → decompress_frame_payload lz4 (frame type 1 len payload) ≡ opened (frame type 1 len storage)
unfolding decompress_frame_payload
decompressed lz4 type len payload storage d = rw (d, decompress_frame_payload) refl

not_compressed :
    (lz4 : Lz4) (type len : ℕ) (payload : List ℕ)
    → decompress_frame_payload lz4 (frame type 0 len payload) ≡ opened (frame type 0 len payload)
unfolding decompress_frame_payload
not_compressed lz4 type len payload = refl

abbrev worth : Lz4 → List ℕ → Bool
worth lz4 payload =
    leb compression_threshold_bytes (length payload)
    && ltb (length (compress_lz4 lz4 payload)) (length payload)

frame_message_compressed :
    (lz4 : Lz4) (type : ℕ) (payload : List ℕ)
    → worth lz4 payload ≡ true
    → (frame_message lz4 type payload 0).bytes ≡ write_frame type (compress_lz4 lz4 payload) 1
unfolding frame_message
frame_message_compressed lz4 type payload e = rw e refl

frame_message_plain :
    (lz4 : Lz4) (type : ℕ) (payload : List ℕ)
    → worth lz4 payload ≡ false
    → (frame_message lz4 type payload 0).bytes ≡ write_frame type payload 0
unfolding frame_message
frame_message_plain lz4 type payload e = rw e refl

-- A session that opens the bytes of a framed message finds its type and its payload.
pub open_frame-frame_message :
    (lz4 : Lz4) (type : ℕ) (payload : List ℕ)
    → Lz4Laws lz4
    → type < 2 ^ 16
    → length payload ≤ max_payload_bytes
    → (f : Frame) × (open_frame lz4 (frame_message lz4 type payload 0).bytes ≡ opened f)
      × (f.header.type ≡ type)
      × (f.payload ≡ payload)
open_frame-frame_message lz4 type payload laws ht hp = elim (Bool-cases (worth lz4 payload)) [
  | inl e ↦
      let small : length (compress_lz4 lz4 payload) ≤ max_payload_bytes = ground arith in
      (
        frame type 1 (length (compress_lz4 lz4 payload)) payload,
        rw (frame_message_compressed lz4 type payload e) (
            open_frame_step lz4 _ _ _
              (read_whole type 1 (compress_lz4 lz4 payload) ht (omega arith) small)
            ∙ decompressed lz4 type (length (compress_lz4 lz4 payload)) _ payload
                (decompress_lz4-compress_lz4 lz4 payload laws (omega arith))),
        refl,
        refl,
      )
  | inr e ↦ (
    frame type 0 (length payload) payload,
    rw (frame_message_plain lz4 type payload e) (
        open_frame_step lz4 _ _ _ (read_whole type 0 payload ht (omega arith) hp)
        ∙ not_compressed lz4 type (length payload) payload),
    refl,
    refl,
  )
]
