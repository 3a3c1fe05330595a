-- ===== src/Protocol/Message.antt =====
-- inc/vb/protocol/message.hpp: message types, lanes, and the envelope of one message.
-- A message type is its number on the wire; any uint16 can arrive.
pub mod Framing
use voxel_browser.Prelude.{
  ℕ, ◌+◌, ◌*◌, ◌%◌, ◌^◌, Bool, ◌&&◌, ◌||◌, List, [], ◌∷◌, leb, ltb, ◌==◌, if◌then◌else◌, length,
  take, drop,
}
use voxel_browser.Protocol.ByteBuffer.{put_le, get_le, open_reader, short_buffer, length_exceeded}
use voxel_browser.Protocol.Result.{Result, ok, err, concat}

pub data Lane : Type 0 where
  control world snapshot assets input feedback : Lane

-- `lane_for`. The cases of the switch are the ranges 40..53 (with the later world messages), 54, 60,
-- 20..23 and 80.
unfoldable pub lane_for : ℕ → Lane
lane_for type =
    if leb 40 type && leb type 53
    then world
    else if type == 54
    then feedback
    else if type == 60
    then snapshot
    else if leb 20 type && leb type 23
    then assets
    else if type == 80
    then input
    else control

abbrev pub envelope_bytes : ℕ
envelope_bytes = 8

abbrev pub max_payload_bytes : ℕ
max_payload_bytes = 16 * 1024 * 1024

pub record MessageHeader : Type 0 where
  pub type : ℕ
  pub flags : ℕ
  pub payload_len : ℕ

pub record Frame : Type 0 where
  pub header : MessageHeader
  pub payload : List ℕ

-- What `write_frame` appends; the payload's size is cast to a uint32.
unfoldable pub write_frame : ℕ → List ℕ → ℕ → List ℕ
write_frame type payload flags =
    concat (put_le 2 type ∷ put_le 2 flags ∷ put_le 4 (length payload % 2 ^ 32) ∷ payload ∷ [])

-- The result and `consumed`.
unfoldable pub read_frame : List ℕ → Result Frame × ℕ
read_frame buffer =
    let (type, r) = get_le 2 (open_reader buffer) in
    let (flags, r') = get_le 2 r in
    let (len, r'') = get_le 4 r' in
    if ltb (length buffer) envelope_bytes
    then (err short_buffer, 0)
    else if ltb max_payload_bytes len
    then (err length_exceeded, 0)
    else if ltb (length buffer) (envelope_bytes + len)
    then (err short_buffer, 0)
    else (
      ok (record {
        header = record { type = type; flags = flags; payload_len = len };
        payload = take len (drop envelope_bytes buffer);
      }),
      envelope_bytes + len,
    )
