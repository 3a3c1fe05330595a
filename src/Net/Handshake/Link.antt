-- ===== src/Net/Handshake/Link.antt =====
-- The two machines of src/net/handshake.cpp, joined as src/net/session.cpp joins them: each message goes out
-- as the bytes of `frame_message`, which arrive once and in order, and the session opens them before a
-- machine sees the frame. `none`: a session has dropped the connection or given up. Without external
-- authentication, so that the session's limit on sign-ins does not apply; no time passes.
use voxel_browser.Prelude.{
  ℕ, zero, suc, Option, none, some, Bool, true, false, List, [], ◌∷◌, ◌++◌, if◌then◌else◌, length,
}
use voxel_browser.Protocol.Message.{Frame}
use voxel_browser.Protocol.Compression.{Lz4}
use voxel_browser.Net.Envelope.{
  frame_message, open_frame, opened, malformed_frame, malformed_compressed_frame,
}
use voxel_browser.Protocol.Messages.{
  Message, message_type, encode_message, block_registry, move_params, day_night_curve, fog_params,
  keybind_registry, entity_kind_registry,
}
use voxel_browser.Net.Handshake.Server.{
  ServerHandshake, HandshakeServerConfig, HandshakeServerHost, new_server,
}
use voxel_browser.Net.Handshake.Frames.{on_frame}
use voxel_browser.Net.Handshake.Client.{
  ClientHandshake, HandshakeClientConfig, HandshakeClientHost, new_client, start,
}
use voxel_browser.Net.Handshake.ClientFrames.{client_on_frame}

-- A frame with this message, not compressed.
unfoldable pub frame_of : Message → Frame
frame_of m = record {
  header = record { type = message_type m; flags = 0; payload_len = length (encode_message m) };
  payload = encode_message m;
}

-- What `ClientSession::poll` takes itself, in any status of the handshake.
unfoldable pub session_takes : Message → Bool
session_takes (block_registry m) = true
session_takes (keybind_registry m) = true
session_takes (entity_kind_registry m) = true
session_takes (move_params m) = true
session_takes (day_night_curve m) = true
session_takes (fog_params m) = true
session_takes other = false

-- The bytes of the message as the session that receives them opens them.
unfoldable pub deliver : Lz4 → Message → Option Frame
deliver lz4 m =
    elim (open_frame lz4 (frame_message lz4 (message_type m) (encode_message m) 0).bytes) [
      | opened f ↦ some f
      | malformed_frame ↦ none
      | malformed_compressed_frame ↦ none
    ]

-- The messages that a step sends, and then those of the steps after it.
unfoldable pub send_before :
    {S : Type 0} → List Message → Option (List Message × S) → Option (List Message × S)
send_before sent none = none
send_before sent (some (later, s)) = some (sent ++ later, s)

-- The messages that arrive, handled one by one: what goes out, and the machine after them.
unfoldable pub feed_server :
    Lz4
    → HandshakeServerConfig
    → HandshakeServerHost
    → List Message
    → ServerHandshake
    → Option (List Message × ServerHandshake)
feed_server lz4 config host [] s = some ([], s)
feed_server lz4 config host (m ∷ ms) s = elim (deliver lz4 m) [
  | none ↦ none
  | some f ↦
      let r = on_frame config host f s in
      let after = feed_server lz4 config host ms r.1 in
      if r.0.disconnects then none else send_before r.0.send after
]

unfoldable pub feed_client :
    Lz4
    → HandshakeClientConfig
    → HandshakeClientHost
    → List Message
    → ClientHandshake
    → Option (List Message × ClientHandshake)
feed_client lz4 config host [] c = some ([], c)
feed_client lz4 config host (m ∷ ms) c = elim (deliver lz4 m) [
  | none ↦ none
  | some f ↦
      let r = client_on_frame config host f c in
      let after = feed_client lz4 config host ms r.1 in
      let skipped = feed_client lz4 config host ms c in
      if session_takes m then skipped else if r.0.fails then none else send_before r.0.send after
]

-- The two machines, and what the client has sent.
pub record Link : Type 0 where
  pub up : List Message
  pub server : ServerHandshake
  pub client : ClientHandshake

unfoldable pub opening : HandshakeClientConfig → Link
opening config = record {
  up = (start config new_client).0.send;
  server = new_server;
  client = (start config new_client).1;
}

module _ (lz4 : Lz4) (config : HandshakeServerConfig) (host : HandshakeServerHost)
    (client_config : HandshakeClientConfig) (client_host : HandshakeClientHost) where
  -- The server handles what the client sent, and the client the replies.
  unfoldable pub round : Link → Option Link
  round l = elim (feed_server lz4 config host l.up l.server) [
    | none ↦ none
    | some (down, server) ↦ elim (feed_client lz4 client_config client_host down l.client) [
      | none ↦ none
      | some (up, client) ↦ some (record { up = up; server = server; client = client })
    ]
  ]

  unfoldable pub rounds : ℕ → Link → Option Link
  rounds zero l = some l
  rounds (suc n) l = elim (round l) [ none ↦ none | some l' ↦ rounds n l' ]
