-- ===== src/Net/Handshake/Replies.antt =====
-- src/net/handshake.cpp: the replies of the machines that let a join go on.
use voxel_browser.Prelude.{
  ◌==◌, ◌≡◌, true, false, ◌&&◌, not, leb, none, some, [], ◌∷◌, arith, append-nil,
}
use voxel_browser.Protocol.Handshake.{
  C2SHello, C2SAuth, S2CServerInfo, S2CAuthResult, S2CJoinAccept, C2SReady,
}
use voxel_browser.Protocol.Handshake.RoundTrip.{
  decode-encode_hello, decode-encode_server_info, decode-encode_auth, decode-encode_auth_result,
  decode-encode_ready, decode-encode_join_accept,
}
use voxel_browser.Protocol.AssetSync.{C2SAssetManifestRequest, S2CAssetManifest, C2SAssetRequest}
use voxel_browser.Protocol.AssetSync.RoundTrip.{
  decode-encode_asset_manifest_request, decode-encode_asset_manifest, decode-encode_asset_request,
}
use voxel_browser.Protocol.Messages.{
  message_type, encode_message, hello, auth, server_info, auth_result, asset_manifest_request,
  asset_manifest, asset_request, ready, join_accept,
}
use voxel_browser.Protocol.Messages.RoundTrip.{Fits}
use voxel_browser.Net.Handshake.Server.{
  ServerHandshake, HandshakeServerConfig, HandshakeServerHost, awaiting_hello, awaiting_auth,
  awaiting_asset_manifest_request, awaiting_asset_request, awaiting_ready, external, sends,
}
use voxel_browser.Net.Handshake.Verdict.{verdict, resolved_name, finish_auth}
use voxel_browser.Net.Handshake.Frames.{
  on_frame, frame_in, expect, on_hello, on_auth, on_manifest_request, on_asset_request, on_ready,
  server_info_of, has_automation_flag, engine_protocol_version,
}
use voxel_browser.Net.Handshake.Client.{
  ClientHandshake, HandshakeClientConfig, HandshakeClientHost, connecting, authenticating,
  awaiting_asset_manifest, syncing, client_sends, auth_of,
}
use voxel_browser.Net.Handshake.ClientFrames.{
  client_on_frame, client_frame_in, client_expect, on_server_info, accept_info, on_auth_result,
  on_manifest, on_join_accept, requirement_error,
}
use voxel_browser.Net.Handshake.Link.{frame_of}

-- A frame of the expected type is handled as the message that it is.
pub on_frame-hello :
    (config : HandshakeServerConfig) (host : HandshakeServerHost) (m : C2SHello)
    (s : ServerHandshake)
    → s.state ≡ awaiting_hello
    → Fits (hello m)
    → on_frame config host (frame_of (hello m)) s ≡ on_hello config host m s
unfolding on_frame frame_in expect frame_of message_type encode_message
on_frame-hello config host m s e h =
    ground (arith, e, rw append-nil at (decode-encode_hello m [] h))

pub on_frame-auth :
    (config : HandshakeServerConfig) (host : HandshakeServerHost) (m : C2SAuth)
    (s : ServerHandshake)
    → s.state ≡ awaiting_auth
    → Fits (auth m)
    → on_frame config host (frame_of (auth m)) s ≡ on_auth config host m s
unfolding on_frame frame_in expect frame_of message_type encode_message
on_frame-auth config host m s e h = ground (arith, e, rw append-nil at (decode-encode_auth m [] h))

pub on_frame-asset_manifest_request :
    (config : HandshakeServerConfig) (host : HandshakeServerHost) (m : C2SAssetManifestRequest)
    (s : ServerHandshake)
    → s.state ≡ awaiting_asset_manifest_request
    → Fits (asset_manifest_request m)
    → on_frame config host (frame_of (asset_manifest_request m)) s ≡ on_manifest_request host m s
unfolding on_frame frame_in expect frame_of message_type encode_message
on_frame-asset_manifest_request config host m s e h =
    ground (arith, e, rw append-nil at (decode-encode_asset_manifest_request m [] h))

pub on_frame-asset_request :
    (config : HandshakeServerConfig) (host : HandshakeServerHost) (m : C2SAssetRequest)
    (s : ServerHandshake)
    → s.state ≡ awaiting_asset_request
    → Fits (asset_request m)
    → on_frame config host (frame_of (asset_request m)) s ≡ on_asset_request m s
unfolding on_frame frame_in expect frame_of message_type encode_message
on_frame-asset_request config host m s e h =
    ground (arith, e, rw append-nil at (decode-encode_asset_request m [] h))

pub on_frame-ready :
    (config : HandshakeServerConfig) (host : HandshakeServerHost) (m : C2SReady)
    (s : ServerHandshake)
    → s.state ≡ awaiting_ready
    → Fits (ready m)
    → on_frame config host (frame_of (ready m)) s ≡ on_ready host s
unfolding on_frame frame_in expect frame_of message_type encode_message
on_frame-ready config host m s e h =
    ground (arith, e, rw append-nil at (decode-encode_ready m [] h))

pub client_on_frame-server_info :
    (config : HandshakeClientConfig) (host : HandshakeClientHost) (m : S2CServerInfo)
    (c : ClientHandshake)
    → c.status ≡ connecting
    → Fits (server_info m)
    → client_on_frame config host (frame_of (server_info m)) c ≡ on_server_info config m c
unfolding client_on_frame client_frame_in client_expect frame_of message_type encode_message
client_on_frame-server_info config host m c e h =
    ground (arith, e, rw append-nil at (decode-encode_server_info m [] h))

pub client_on_frame-auth_result :
    (config : HandshakeClientConfig) (host : HandshakeClientHost) (m : S2CAuthResult)
    (c : ClientHandshake)
    → c.status ≡ authenticating
    → Fits (auth_result m)
    → client_on_frame config host (frame_of (auth_result m)) c ≡ on_auth_result host m c
unfolding client_on_frame client_frame_in client_expect frame_of message_type encode_message
client_on_frame-auth_result config host m c e h =
    ground (arith, e, rw append-nil at (decode-encode_auth_result m [] h))

pub client_on_frame-asset_manifest :
    (config : HandshakeClientConfig) (host : HandshakeClientHost) (m : S2CAssetManifest)
    (c : ClientHandshake)
    → c.status ≡ awaiting_asset_manifest
    → Fits (asset_manifest m)
    → client_on_frame config host (frame_of (asset_manifest m)) c ≡ on_manifest host m c
unfolding client_on_frame client_frame_in client_expect frame_of message_type encode_message
client_on_frame-asset_manifest config host m c e h =
    ground (arith, e, rw append-nil at (decode-encode_asset_manifest m [] h))

pub client_on_frame-join_accept :
    (config : HandshakeClientConfig) (host : HandshakeClientHost) (m : S2CJoinAccept)
    (c : ClientHandshake)
    → c.status ≡ syncing
    → Fits (join_accept m)
    → client_on_frame config host (frame_of (join_accept m)) c ≡ on_join_accept m c
unfolding client_on_frame client_frame_in client_expect frame_of message_type encode_message
client_on_frame-join_accept config host m c e h =
    ground (arith, e, rw append-nil at (decode-encode_join_accept m [] h))

module _ (config : HandshakeServerConfig) (host : HandshakeServerHost)
    (client_config : HandshakeClientConfig) (client_host : HandshakeClientHost) where
  pub on_hello_plain :
      (m : C2SHello) (s : ServerHandshake)
      → m.engine_protocol_version ≡ engine_protocol_version
      → (config.auth_mode == external) ≡ false
      → (has_automation_flag m.client_flags && not config.accept_automation_clients) ≡ false
      → on_hello config host m s
        ≡ (sends (server_info (server_info_of config) ∷ []), record s { state = awaiting_auth })
  unfolding on_hello
  on_hello_plain m s p e a = ground (arith, p, e, a)

  pub on_auth_accepted :
      (m : C2SAuth) (s : ServerHandshake)
      → (config.auth_mode == external) ≡ false
      → leb config.max_players host.current_player_count ≡ false
      → (host.authenticate m.player_name m.token).accepted ≡ true
      → let s' : ServerHandshake = record s { requested_name = m.player_name } in
        let outcome = host.authenticate m.player_name m.token in
        on_auth config host m s ≡ (
          sends (auth_result (verdict outcome s') ∷ []),
          record s' {
            player_name = resolved_name outcome s';
            state = awaiting_asset_manifest_request;
          },
        )
  unfolding on_auth finish_auth
  on_auth_accepted m s e r a = ground (arith, e, r, a)

  pub on_server_info_plain :
      (m : S2CServerInfo) (c : ClientHandshake)
      → m.engine_protocol_version ≡ engine_protocol_version
      → (m.auth_mode == external) ≡ false
      → requirement_error m.engine_version_req client_config.engine ≡ none
      → on_server_info client_config m c ≡ (
        client_sends (auth (auth_of client_config client_config.token) ∷ []),
        record c { server_info = some m; status = authenticating },
      )
  unfolding on_server_info accept_info
  on_server_info_plain m c p e r = ground (arith, p, e, r)

  pub on_auth_result_accepted :
      (m : S2CAuthResult) (c : ClientHandshake)
      → m.accepted ≡ true
      → on_auth_result client_host m c ≡ (
        client_sends (
            asset_manifest_request
              (record { known_manifest_hash = client_host.last_known_manifest_hash })
            ∷ []),
        record c { resolved_name = m.resolved_name; status = awaiting_asset_manifest },
      )
  unfolding on_auth_result
  on_auth_result_accepted m c a = ground (arith, a)

  pub on_manifest_complete :
      (m : S2CAssetManifest) (c : ClientHandshake)
      → client_host.assets_missing m ≡ []
      → on_manifest client_host m c ≡ (
        client_sends (asset_request (record { missing = [] }) ∷ ready (record {}) ∷ []),
        record c { status = syncing },
      )
  unfolding on_manifest
  on_manifest_complete m c e = ground (arith, e)
