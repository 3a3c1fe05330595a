-- ===== src/Net/Handshake/Examples.antt =====
-- The theorems of the handshake at concrete configurations, hosts and messages.
use voxel_browser.Prelude.{
  ℕ, ◌≡◌, ◌≤◌, refl, sym, ap, subst, drop, true, false, none, some, List, [], ◌∷◌, arith,
  if◌then◌else◌,
}
use voxel_browser.Prelude.Int.{pos}
use voxel_browser.Core.VersionReq.Parse.{version}
use voxel_browser.Protocol.Handshake.RoundTrip.{S2CServerInfoFits}
use voxel_browser.Protocol.Handshake.{is_auth_mode, S2CJoinAccept, S2CServerInfo}
use voxel_browser.Protocol.Messages.{
  hello, auth, server_info, auth_result, asset_manifest, join_accept,
}
use voxel_browser.Net.Handshake.Server.{
  ServerHandshakeState, ServerHandshake, HandshakeServerConfig, HandshakeServerHost, AuthOutcome,
  LoginData, new_server, no_grant, external,
}
use voxel_browser.Net.Handshake.Frames.{accept_of, server_info_of, manifest_reply}
use voxel_browser.Net.Handshake.Client.{
  ClientHandshake, ClientReaction, authenticating, awaiting_asset_manifest, syncing, joined,
  HandshakeClientHost, HandshakeClientConfig, hello_of, auth_of, new_client,
}
use voxel_browser.Net.Handshake.ClientFrames.{
  on_server_info, accept_info, on_auth_result, on_manifest, on_join_accept, requirement_error,
}
use voxel_browser.Net.Handshake.Calls.{Call, frame, react, Follows, react-Follows}
use voxel_browser.Net.Handshake.Drops.{announced, react-announced}
use voxel_browser.Net.Handshake.ClientOrder.{
  ClientCall, arrives, cancels, client_react, ClientFollows, client_react-Follows,
}
use voxel_browser.Net.Handshake.ClientGate.{Suits}
use voxel_browser.Net.Handshake.ClientRun.{client_run, client_run-joined}
use voxel_browser.Net.Handshake.Replies.{
  client_on_frame-server_info, client_on_frame-auth_result, client_on_frame-asset_manifest,
  client_on_frame-join_accept,
}
use voxel_browser.Net.Handshake.Link.{frame_of, Link}
use voxel_browser.Protocol.AssetSync.{AssetHash, C2SAssetRequest}
use voxel_browser.Net.Handshake.Assets.{chunk_count}
use voxel_browser.Net.Handshake.Chunks.{file_chunks, reassemble, Numbered, reassemble-file_chunks}

abbrev config : HandshakeServerConfig
config = record {
  pack_name = b'p' ∷ [];
  pack_version = b'1' ∷ [];
  tick_rate = 20;
  view_distance = 8;
  motd = [];
  engine_version_req = [];
  auth_mode = 0;
  max_players = 16;
  handshake_timeout_seconds = 10;
  auth_timeout_seconds = 300;
  accept_automation_clients = false;
}

abbrev ann : LoginData
ann = record {
  provider = b'o' ∷ [];
  issuer = b'i' ∷ [];
  subject = b's' ∷ [];
  name = b'a' ∷ [];
  claims_json = [];
  issued_at = 0;
  expires_at = 9;
}

abbrev accepts_ann : AuthOutcome
accepts_ann = record { accepted = true; reason = []; resolved_name = []; login = some ann }

-- It accepts every sign-in, has no pack to send and no registry.
abbrev host : HandshakeServerHost
host = record {
  current_player_count = 0;
  authenticate = λ name token. accepts_ann;
  auth_challenge = some (record {
    provider = [];
    display_name = [];
    issuer = [];
    client_id = [];
    scopes = [];
    params = [];
    nonce = 7 ∷ [];
  });
  begin_authenticate = some (λ token nonce. some 3);
  poll_ticket = λ ticket. some accepts_ann;
  resolve_name = λ name login. name;
  join_veto = λ name login. true;
  on_ready = λ name. no_grant;
  block_registry = none;
  move_params = none;
  day_night_curve = none;
  fog_params = none;
  keybind_registry = none;
  entity_kind_registry = none;
  asset_manifest = none;
  asset_file_bytes = λ hash. none;
}

abbrev client_config : HandshakeClientConfig
client_config = record {
  player_name = b'a' ∷ [];
  token = [];
  client_version = b'v' ∷ [];
  client_nonce = 1;
  client_flags = 0;
  engine = version (pos 0) (pos 5) (pos 2);
  with_automation = false;
}

abbrev client_host : HandshakeClientHost
client_host = record {
  last_known_manifest_hash = record { lo = 0; hi = 0 };
  assets_missing = λ m. [];
  on_asset_chunk = λ d. true;
  assets_all_received = true;
  obtain_token = none;
  begin_sign_in = none;
  poll_ticket = λ ticket. record { done = false; token = []; error = [] };
}

abbrev greeting : Call
greeting = frame host (frame_of (hello (hello_of client_config)))

react-Follows_example : Follows new_server.state (react config greeting new_server)
react-Follows_example = react-Follows config greeting new_server

react-announced_example : announced (react config greeting new_server).0.send ≡ (
    if (react config greeting new_server).0.disconnects
    then some (react config greeting new_server).0.disconnect_reason
    else none)
react-announced_example = react-announced config greeting new_server

client_react-Follows_example :
    ClientFollows new_client.status (client_react client_config cancels new_client)
client_react-Follows_example = client_react-Follows client_config cancels new_client

info_fits : S2CServerInfoFits (server_info_of config)
unfolding server_info_of is_auth_mode
info_fits = record {
  pack_name = omega arith;
  pack_version = omega arith;
  engine_protocol_version = omega arith;
  tick_rate = omega arith;
  view_distance = omega arith;
  motd = omega arith;
  auth_mode = omega arith;
  auth_mode_valid = refl;
  engine_version_req = omega arith;
}

abbrev external_config : HandshakeServerConfig
external_config = record config { auth_mode = external }

abbrev signing : Call
signing = frame host (frame_of (auth (auth_of client_config [])))

abbrev sign_in : List Call
sign_in = greeting ∷ signing ∷ []

abbrev challenged : ServerHandshake
challenged = record new_server { auth_nonce = 7 ∷ []; state = ServerHandshakeState.awaiting_auth }

abbrev joining : List ClientCall
joining =
    arrives client_host (frame_of (server_info (server_info_of config)))
    ∷ arrives client_host (
        frame_of (auth_result (record { accepted = true; reason = []; resolved_name = b'b' ∷ [] })))
    ∷ arrives client_host
        (frame_of (asset_manifest (manifest_reply none (record { lo = 0; hi = 0 }))))
    ∷ arrives client_host (frame_of (join_accept (accept_of no_grant)))
    ∷ []

abbrev informed : ClientHandshake
informed = record new_client { server_info = some (server_info_of config); status = authenticating }

abbrev named_b : ClientHandshake
named_b = record informed { resolved_name = b'b' ∷ []; status = awaiting_asset_manifest }

joining-joined : (client_run client_config joining new_client).status ≡ joined
unfolding client_run client_react on_server_info accept_info server_info_of on_auth_result
    on_manifest on_join_accept requirement_error manifest_reply
joining-joined =
    let e₁ =
      client_on_frame-server_info client_config client_host (server_info_of config) new_client refl
        info_fits in
    let e₂ =
      client_on_frame-auth_result client_config client_host
        (record { accepted = true; reason = []; resolved_name = b'b' ∷ [] }) informed refl
        (omega arith) in
    let e₃ =
      client_on_frame-asset_manifest client_config client_host
        (manifest_reply none (record { lo = 0; hi = 0 })) named_b refl (omega arith) in
    let e₄ =
      client_on_frame-join_accept client_config client_host (accept_of no_grant)
        (record named_b { status = syncing }) refl (omega arith) in
    subst (λ (r : ClientReaction). (client_run client_config (drop 1 joining) r.1).status ≡ joined)
      (sym e₁)
      (subst
        (λ (r : ClientReaction). (client_run client_config (drop 2 joining) r.1).status ≡ joined)
        (sym e₂)
        (subst
          (λ (r : ClientReaction). (client_run client_config (drop 3 joining) r.1).status ≡ joined)
          (sym e₃) (ap (λ (r : ClientReaction). r.1.status) e₄)))

client_run-joined_example :
    ((m : S2CJoinAccept) × ((client_run client_config joining new_client).join_accept ≡ some m))
    × ((info : S2CServerInfo) × ((client_run client_config joining new_client).server_info
          ≡ some info)
        × Suits client_config.engine info)
client_run-joined_example = client_run-joined client_config joining joining-joined

-- The host with one file, of one byte.
abbrev file_host : HandshakeServerHost
file_host = record host { asset_file_bytes = λ hash. some (5 ∷ []) }

abbrev file : AssetHash → List ℕ
file hash = 5 ∷ []

abbrev two_files : C2SAssetRequest
two_files = record { missing = record { lo = 1; hi = 0 } ∷ record { lo = 2; hi = 0 } ∷ [] }

reassemble-file_chunks_example :
    (reassemble (file_chunks (record { lo = 1; hi = 0 }) (4 ∷ 5 ∷ [])) ≡ 4 ∷ 5 ∷ [])
    × (1 ≤ chunk_count 2)
    × Numbered
        (record { lo = 1; hi = 0 })
        (chunk_count 2)
        0
        (file_chunks (record { lo = 1; hi = 0 }) (4 ∷ 5 ∷ []))
reassemble-file_chunks_example =
    reassemble-file_chunks (record { lo = 1; hi = 0 }) (4 ∷ 5 ∷ []) (omega arith)
