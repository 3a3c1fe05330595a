-- ===== src/Net/Envelope.antt =====
-- inc/vb/net/handshake.hpp (`frame_message`) and src/net/session.cpp (`decompress_frame_payload`, and
-- what a session does with a frame before it looks at its type). Built with VB_WITH_COMPRESSION.
pub mod Delivery
use voxel_browser.Prelude.{ℕ, ◌+◌, ◌%◌, Bool, ◌&&◌, List, ltb, leb, ◌==◌, if◌then◌else◌, length}
use voxel_browser.Protocol.Result.{Result, ok, err}
use voxel_browser.Protocol.Message.{Lane, lane_for, Frame, write_frame, read_frame}
use voxel_browser.Protocol.Compression.{Lz4, compress_lz4, decompress_lz4}

abbrev pub compression_threshold_bytes : ℕ
compression_threshold_bytes = 128

-- `flags | kCompressed` and `flags & kCompressed`; kCompressed is bit 0.
abbrev pub set_compressed : ℕ → ℕ
set_compressed flags = if flags % 2 == 0 then flags + 1 else flags

abbrev pub is_compressed : ℕ → Bool
is_compressed flags = flags % 2 == 1

pub record OutgoingFrame : Type 0 where
  pub lane : Lane
  pub bytes : List ℕ

-- `frame_message` for a message of this type and with this payload.
unfoldable pub frame_message : Lz4 → ℕ → List ℕ → ℕ → OutgoingFrame
frame_message lz4 type payload flags =
    let compressed = compress_lz4 lz4 payload in
    let plain : OutgoingFrame = record {
      lane = lane_for type;
      bytes = write_frame type payload flags;
    } in
    if leb compression_threshold_bytes (length payload) && ltb (length compressed) (length payload)
    then record { lane = lane_for type; bytes = write_frame type compressed (set_compressed flags) }
    else plain

-- The two reasons for which a session drops the connection here.
pub data Opened : Type 0 where
  opened : Frame → Opened
  malformed_frame malformed_compressed_frame : Opened

-- The frame with its payload decompressed; the header stays.
unfoldable pub decompress_frame_payload : Lz4 → Frame → Opened
decompress_frame_payload lz4 frame =
    if is_compressed frame.header.flags
    then elim (decompress_lz4 lz4 frame.payload) [
      | ok storage ↦ opened (record frame { payload = storage })
      | err e ↦ malformed_compressed_frame
    ]
    else opened frame

-- A `kMessage` event's frame, up to the dispatch on its type.
unfoldable pub open_frame : Lz4 → List ℕ → Opened
open_frame lz4 bytes = elim ((read_frame bytes).0) [
  | ok frame ↦ decompress_frame_payload lz4 frame
  | err e ↦ malformed_frame
]
