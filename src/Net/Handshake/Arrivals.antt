-- ===== src/Net/Handshake/Arrivals.antt =====
-- src/net/session.cpp: the messages of a join on their way from one machine to the other.
use voxel_browser.Prelude.{◌≡◌, refl, ◌∙◌, true, false, Option, none, some, List, [], ◌∷◌, ◌++◌}
use voxel_browser.Protocol.Messages.{Message, message_type, encode_message}
use voxel_browser.Protocol.Messages.RoundTrip.{Fits}
use voxel_browser.Net.Handshake.Server.{
  ServerHandshake, HandshakeServerConfig, HandshakeServerHost, awaiting_hello, awaiting_auth,
  awaiting_asset_manifest_request, awaiting_asset_request, awaiting_ready, ServerHandshakeStep,
}
use voxel_browser.Net.Handshake.Frames.{on_frame, frame_in, registries, optional_message}
use voxel_browser.Net.Handshake.Client.{
  ClientHandshake, HandshakeClientConfig, HandshakeClientHost, connecting, authenticating,
  awaiting_asset_manifest, syncing, ClientHandshakeStep,
}
use voxel_browser.Net.Handshake.ClientFrames.{client_on_frame, client_frame_in}
use voxel_browser.Net.Handshake.Link.{
  frame_of, deliver, send_before, session_takes, feed_server, feed_client, Link, round,
}
use voxel_browser.Protocol.Message.{Frame, max_payload_bytes}
use voxel_browser.Protocol.Compression.{Lz4, Lz4Laws}
use voxel_browser.Protocol.Messages.RoundTrip.{message_type_bound}
use voxel_browser.Prelude.{length, ◌≤◌, All}
use voxel_browser.Net.Handshake.Server.{
  ServerHandshakeState, verifying_auth, streaming_assets, playing, closed,
}
use voxel_browser.Net.Handshake.Client.{
  ClientHandshakeStatus, awaiting_challenge, signing_in, syncing_assets, joined, failed,
}
use voxel_browser.Net.Envelope.Delivery.{open_frame-frame_message}

-- A machine sees the type and the payload of a frame only.
frame_in-same :
    (config : HandshakeServerConfig) (host : HandshakeServerHost) (f g : Frame)
    (a : ServerHandshakeState) (s : ServerHandshake)
    → f.header.type ≡ g.header.type
    → f.payload ≡ g.payload
    → frame_in config host f a s ≡ frame_in config host g a s
unfolding frame_in
frame_in-same config host f g awaiting_hello s t p = rw (t, p) refl
frame_in-same config host f g awaiting_auth s t p = rw (t, p) refl
frame_in-same config host f g verifying_auth s t p = refl
frame_in-same config host f g awaiting_asset_manifest_request s t p = rw (t, p) refl
frame_in-same config host f g awaiting_asset_request s t p = rw (t, p) refl
frame_in-same config host f g streaming_assets s t p = refl
frame_in-same config host f g awaiting_ready s t p = rw (t, p) refl
frame_in-same config host f g playing s t p = refl
frame_in-same config host f g closed s t p = refl

client_frame_in-same :
    (config : HandshakeClientConfig) (host : HandshakeClientHost) (f g : Frame)
    (a : ClientHandshakeStatus) (c : ClientHandshake)
    → f.header.type ≡ g.header.type
    → f.payload ≡ g.payload
    → client_frame_in config host f a c ≡ client_frame_in config host g a c
unfolding client_frame_in
client_frame_in-same config host f g connecting c t p = rw (t, p) refl
client_frame_in-same config host f g awaiting_challenge c t p = rw (t, p) refl
client_frame_in-same config host f g signing_in c t p = refl
client_frame_in-same config host f g authenticating c t p = rw (t, p) refl
client_frame_in-same config host f g awaiting_asset_manifest c t p = rw (t, p) refl
client_frame_in-same config host f g syncing_assets c t p = rw (t, p) refl
client_frame_in-same config host f g syncing c t p = rw (t, p) refl
client_frame_in-same config host f g joined c t p = refl
client_frame_in-same config host f g failed c t p = refl

on_frame-same :
    (config : HandshakeServerConfig) (host : HandshakeServerHost) (f g : Frame)
    (s : ServerHandshake)
    → f.header.type ≡ g.header.type
    → f.payload ≡ g.payload
    → on_frame config host f s ≡ on_frame config host g s
unfolding on_frame
on_frame-same config host f g s t p = frame_in-same config host f g s.state s t p

client_on_frame-same :
    (config : HandshakeClientConfig) (host : HandshakeClientHost) (f g : Frame)
    (c : ClientHandshake)
    → f.header.type ≡ g.header.type
    → f.payload ≡ g.payload
    → client_on_frame config host f c ≡ client_on_frame config host g c
unfolding client_on_frame
client_on_frame-same config host f g c t p =
    rw (client_frame_in-same config host f g c.status c t p, t, p) refl

-- The payload is at most 16 MiB, as a session wants it.
abbrev pub Sized : Message → Type 0
Sized m = length (encode_message m) ≤ max_payload_bytes

-- The values fit the wire format, too.
abbrev pub Sendable : Message → Type 0
Sendable m = Fits m × Sized m

All-optional :
    {A : Type 0} (message : A → Message) (o : Option A)
    → ((a : A) → session_takes (message a) ≡ true)
    → All (λ m. session_takes m ≡ true) (optional_message message o)
unfolding optional_message
All-optional message none h = tt
All-optional message (some a) h = (h a, tt)

All-both : (P : Message → Type 0) (xs ys : List Message) → All P xs → All P ys → All P (xs ++ ys)
All-both P [] ys h k = k
All-both P (x ∷ xs) ys h k = (h.0, All-both P xs ys h.1 k)

-- The messages that the session takes itself.
registries-All : (host : HandshakeServerHost) → All (λ m. session_takes m ≡ true) (registries host)
unfolding registries session_takes
registries-All host = All-both _ _ _ (All-optional _ host.block_registry (λ a. refl)) (
    All-both _ _ _ (All-optional _ host.keybind_registry (λ a. refl)) (
      All-both _ _ _ (All-optional _ host.entity_kind_registry (λ a. refl)) (
        All-both _ _ _ (All-optional _ host.move_params (λ a. refl)) (
          All-both _ _ _ (All-optional _ host.day_night_curve (λ a. refl))
            (All-optional _ host.fog_params (λ a. refl))))))

module _ (lz4 : Lz4) (laws : Lz4Laws lz4) where
  deliver_lem :
      (m : Message)
      → Sized m
      → (f : Frame) × (deliver lz4 m ≡ some f)
        × (f.header.type ≡ message_type m)
        × (f.payload ≡ encode_message m)
  unfolding deliver
  deliver_lem m h =
      let (f, e, t, p) =
        open_frame-frame_message lz4 (message_type m) (encode_message m) laws (message_type_bound m)
          h in
      (f, rw (e, deliver) refl, t, p)

  pub feed_server-cons :
      (config : HandshakeServerConfig) (host : HandshakeServerHost) (m : Message)
      (ms out : List Message) (s s' s'' : ServerHandshake) (step : ServerHandshakeStep)
      → Sized m
      → on_frame config host (frame_of m) s ≡ (step, s')
      → step.disconnects ≡ false
      → feed_server lz4 config host ms s' ≡ some (out, s'')
      → feed_server lz4 config host (m ∷ ms) s ≡ some (step.send ++ out, s'')
  unfolding feed_server frame_of send_before
  feed_server-cons config host m ms out s s' s'' step z e d rest =
      let (f, a, t, p) = deliver_lem m z in
      rw (a, feed_server, on_frame-same config host f (frame_of m) s t p ∙ e, d, rest) refl

  pub feed_client-cons :
      (config : HandshakeClientConfig) (host : HandshakeClientHost) (m : Message)
      (ms out : List Message) (c c' c'' : ClientHandshake) (step : ClientHandshakeStep)
      → Sized m
      → session_takes m ≡ false
      → client_on_frame config host (frame_of m) c ≡ (step, c')
      → step.fails ≡ false
      → feed_client lz4 config host ms c' ≡ some (out, c'')
      → feed_client lz4 config host (m ∷ ms) c ≡ some (step.send ++ out, c'')
  unfolding feed_client frame_of send_before
  feed_client-cons config host m ms out c c' c'' step z takes e d rest =
      let (f, a, t, p) = deliver_lem m z in
      rw (a, feed_client, takes, client_on_frame-same config host f (frame_of m) c t p ∙ e, d, rest)
        refl

  -- The session takes these messages, and the machine sees what follows them.
  feed_client-taken :
      (config : HandshakeClientConfig) (host : HandshakeClientHost) (taken rest : List Message)
      (c : ClientHandshake)
      → All (λ m. session_takes m ≡ true) taken
      → All Sized taken
      → feed_client lz4 config host (taken ++ rest) c ≡ feed_client lz4 config host rest c
  unfolding feed_client
  feed_client-taken config host [] rest c t z = refl
  feed_client-taken config host (m ∷ taken) rest c t z =
      let (f, a, b, p) = deliver_lem m z.0 in
      rw (a, feed_client, t.0) (feed_client-taken config host taken rest c t.1 z.1)

  pub feed_client-registries :
      (config : HandshakeClientConfig) (host : HandshakeClientHost)
      (server_host : HandshakeServerHost) (rest : List Message) (c : ClientHandshake)
      → All Sized (registries server_host)
      → feed_client lz4 config host (registries server_host ++ rest) c
        ≡ feed_client lz4 config host rest c
  feed_client-registries config host server_host rest c z =
      feed_client-taken config host (registries server_host) rest c (registries-All server_host) z

  pub round_of :
      (config : HandshakeServerConfig) (host : HandshakeServerHost)
      (client_config : HandshakeClientConfig) (client_host : HandshakeClientHost) (l : Link)
      (down up : List Message) (s : ServerHandshake) (c : ClientHandshake)
      → feed_server lz4 config host l.up l.server ≡ some (down, s)
      → feed_client lz4 client_config client_host down l.client ≡ some (up, c)
      → round lz4 config host client_config client_host l
        ≡ some (record { up = up; server = s; client = c })
  unfolding round
  round_of config host client_config client_host l down up s c e f = rw (e, f, round) refl
