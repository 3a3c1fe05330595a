-- ===== src/Net/Delivery.antt =====
-- From a message to the bytes on the wire and back: inc/vb/net/handshake.hpp (`frame_message`),
-- src/net/session.cpp (what a session does with a frame) and the payload codecs.
use voxel_browser.Prelude.{ℕ, ◌≤◌, ◌≡◌, refl, List, Option, none, some, length}
use voxel_browser.Protocol.Result.{Result, ok}
use voxel_browser.Protocol.Message.{max_payload_bytes}
use voxel_browser.Protocol.Compression.{Lz4, Lz4Laws}
use voxel_browser.Protocol.Messages.{Message, message_type, encode_message, decode_message}
use voxel_browser.Protocol.Messages.RoundTrip.{
  Fits, decode_message-encode_message, message_type_bound,
}
use voxel_browser.Net.Envelope.{
  frame_message, open_frame, opened, malformed_frame, malformed_compressed_frame,
}
use voxel_browser.Net.Envelope.Delivery.{open_frame-frame_message}

-- The bytes of an event, opened, and decoded by the type in the header. `none`: the session drops.
unfoldable pub receive_message : Lz4 → List ℕ → Option (Result Message)
receive_message lz4 bytes = elim (open_frame lz4 bytes) [
  | opened f ↦ some (decode_message f.header.type f.payload)
  | malformed_frame ↦ none
  | malformed_compressed_frame ↦ none
]

-- Every message of the protocol whose values fit the wire format, and whose payload is at most
-- 16 MiB, is received as it was sent, compressed or not, if LZ4 keeps its documented laws.
pub receive_message-frame_message :
    (lz4 : Lz4) (m : Message)
    → Lz4Laws lz4
    → Fits m
    → length (encode_message m) ≤ max_payload_bytes
    → receive_message lz4 (frame_message lz4 (message_type m) (encode_message m) 0).bytes
      ≡ some (ok m)
unfolding receive_message
receive_message-frame_message lz4 m laws fits h =
    let (f, e, t, p) =
      open_frame-frame_message lz4 (message_type m) (encode_message m) laws (message_type_bound m)
        h in
    rw (e, receive_message, t, p, decode_message-encode_message m fits) refl
