-- ===== src/Net/Handshake/Frames.antt =====
-- src/net/handshake.cpp: `ServerHandshake::on_frame`.
use voxel_browser.Prelude.{
  ℕ, ◌%◌, Bool, true, ◌&&◌, not, Option, none, some, List, [], ◌∷◌, ◌++◌, leb, ◌==◌, if◌then◌else◌,
}
use voxel_browser.Protocol.Result.{Result, ok, err}
use voxel_browser.Protocol.Message.{Frame}
use voxel_browser.Protocol.Handshake.{
  C2SHello, decode_hello, S2CServerInfo, C2SAuth, decode_auth, S2CAuthChallenge, decode_ready,
  S2CJoinAccept,
}
use voxel_browser.Protocol.AssetSync.{
  AssetHash, C2SAssetManifestRequest, decode_asset_manifest_request, S2CAssetManifest,
  C2SAssetRequest, decode_asset_request,
}
use voxel_browser.Protocol.Messages.{
  Message, server_info, auth_challenge, asset_manifest, block_registry, keybind_registry,
  entity_kind_registry, move_params, day_night_curve, fog_params, join_accept,
}
use voxel_browser.Net.Handshake.Texts
use voxel_browser.Net.Handshake.Server.{
  ServerHandshake, ServerHandshakeState, HandshakeServerConfig, HandshakeServerHost, Manifest,
  Reaction, JoinGrant, awaiting_hello, awaiting_auth, verifying_auth,
  awaiting_asset_manifest_request, awaiting_asset_request, streaming_assets, awaiting_ready,
  playing, closed, sends, fail, is_empty, external, no_stream, server_full, protocol_mismatch,
  auth_failed, protocol_error, bad_handshake,
}
use voxel_browser.Net.Handshake.Verdict.{poll_auth, finish_auth}

abbrev pub engine_protocol_version : ℕ
engine_protocol_version = 31

unfoldable pub server_info_of : HandshakeServerConfig → S2CServerInfo
server_info_of config = record {
  pack_name = config.pack_name;
  pack_version = config.pack_version;
  engine_protocol_version = engine_protocol_version;
  tick_rate = config.tick_rate;
  view_distance = config.view_distance;
  motd = config.motd;
  auth_mode = config.auth_mode;
  engine_version_req = config.engine_version_req;
}

-- kClientFlagAutomation is bit 0.
abbrev pub has_automation_flag : ℕ → Bool
has_automation_flag flags = flags % 2 == 1

-- The end of the case kAwaitingHello under external authentication.
unfoldable pub challenge :
    HandshakeServerConfig → Option S2CAuthChallenge → ServerHandshake → Reaction
challenge config none s = fail auth_failed Texts.cannot_authenticate s
challenge config (some c) s =
    if is_empty c.nonce then fail auth_failed Texts.cannot_authenticate s else (
      sends (server_info (server_info_of config) ∷ auth_challenge c ∷ []),
      record s { auth_nonce = c.nonce; state = awaiting_auth },
    )

unfoldable pub on_hello :
    HandshakeServerConfig → HandshakeServerHost → C2SHello → ServerHandshake → Reaction
on_hello config host m s =
    if not (m.engine_protocol_version == engine_protocol_version)
    then fail protocol_mismatch Texts.version_mismatch s
    else if has_automation_flag m.client_flags && not config.accept_automation_clients
    then fail bad_handshake Texts.automation_refused s
    else if config.auth_mode == external
    then challenge config host.auth_challenge s
    else (sends (server_info (server_info_of config) ∷ []), record s { state = awaiting_auth })

-- The case kAwaitingAuth under external authentication, with `begin_authenticate`.
abbrev pub begin_auth :
    HandshakeServerHost → Option (List ℕ → List ℕ → Option ℕ) → List ℕ → ServerHandshake → Reaction
begin_auth host none token s = fail auth_failed Texts.cannot_authenticate s
begin_auth host (some begin_authenticate) token s = elim (begin_authenticate token s.auth_nonce) [
  | none ↦ fail auth_failed Texts.cannot_authenticate (record s { auth_ticket = none })
  | some ticket ↦ poll_auth host (record s { auth_ticket = some ticket; state = verifying_auth })
]

unfoldable pub on_auth :
    HandshakeServerConfig → HandshakeServerHost → C2SAuth → ServerHandshake → Reaction
on_auth config host m s =
    let requested : ServerHandshake = record s { requested_name = m.player_name } in
    if leb config.max_players host.current_player_count
    then fail server_full Texts.server_is_full s
    else if config.auth_mode == external
    then begin_auth host host.begin_authenticate m.token requested
    else finish_auth (host.authenticate m.player_name m.token) requested

abbrev pub same_hash : AssetHash → AssetHash → Bool
same_hash a b = a.lo == b.lo && a.hi == b.hi

-- The reply for the host's manifest and the hash that the client knows.
unfoldable pub manifest_reply : Option Manifest → AssetHash → S2CAssetManifest
manifest_reply none known = record {
  manifest_hash = record { lo = 0; hi = 0 };
  total_bytes = 0;
  entries = [];
}
manifest_reply (some m) known = record {
  manifest_hash = m.manifest_hash;
  total_bytes = m.total_bytes;
  entries = if same_hash known m.manifest_hash then [] else m.entries;
}

unfoldable pub on_manifest_request :
    HandshakeServerHost → C2SAssetManifestRequest → ServerHandshake → Reaction
on_manifest_request host m s = (
  sends (asset_manifest (manifest_reply host.asset_manifest m.known_manifest_hash) ∷ []),
  record s { manifest = host.asset_manifest; state = awaiting_asset_request },
)

unfoldable pub on_asset_request : C2SAssetRequest → ServerHandshake → Reaction
on_asset_request m s =
    let next : ServerHandshakeState = elim m.missing [
      | [] ↦ awaiting_ready
      | h ∷ hs ↦ streaming_assets
    ] in
    (sends [], record s { asset_stream = record no_stream { pending = m.missing }; state = next })

-- The message of an optional part of the reply to Ready.
unfoldable pub optional_message : {A : Type 0} → (A → Message) → Option A → List Message
optional_message message none = []
optional_message message (some a) = message a ∷ []

abbrev pub accept_of : JoinGrant → S2CJoinAccept
accept_of grant = record {
  your_net_id = grant.net_id;
  spawn_x = grant.spawn_x;
  spawn_y = grant.spawn_y;
  spawn_z = grant.spawn_z;
  world_seed = grant.world_seed;
  time_of_day = grant.time_of_day;
}

-- What goes out before the JoinAccept.
unfoldable pub registries : HandshakeServerHost → List Message
registries host =
    optional_message (λ blocks. block_registry (record { blocks = blocks })) host.block_registry
    ++ (optional_message (λ names. keybind_registry (record { names = names }))
          host.keybind_registry
        ++ (optional_message (λ kinds. entity_kind_registry (record { kinds = kinds }))
              host.entity_kind_registry
            ++ (optional_message move_params host.move_params
                ++ (optional_message (λ curve. day_night_curve (record { keyframes = curve }))
                      host.day_night_curve
                    ++ optional_message fog_params host.fog_params))))

unfoldable pub on_ready : HandshakeServerHost → ServerHandshake → Reaction
on_ready host s =
    let grant = host.on_ready s.player_name in
    (
      record (sends (registries host ++ (join_accept (accept_of grant) ∷ []))) {
        completed = true;
        player_name = s.player_name;
      },
      record s { grant = grant; state = playing },
    )

-- The check of the type and the decoding that each case begins with.
unfoldable pub expect :
    {A : Type 0}
    → Bool
    → List ℕ
    → List ℕ
    → Result A
    → (A → ServerHandshake → Reaction)
    → ServerHandshake
    → Reaction
expect expected unexpected malformed decoded handle s =
    if expected
    then (elim decoded [ err e ↦ fail protocol_error malformed s | ok m ↦ handle m s ])
    else fail bad_handshake unexpected s

-- The switch of `on_frame`, on the machine's state.
unfoldable pub frame_in :
    HandshakeServerConfig
    → HandshakeServerHost
    → Frame
    → ServerHandshakeState
    → ServerHandshake
    → Reaction
frame_in config host frame awaiting_hello =
    expect (frame.header.type == 1) Texts.expected_hello Texts.malformed_hello
      (decode_hello frame.payload) (on_hello config host)
frame_in config host frame awaiting_auth =
    expect (frame.header.type == 3) Texts.expected_auth Texts.malformed_auth
      (decode_auth frame.payload) (on_auth config host)
frame_in config host frame verifying_auth = fail bad_handshake Texts.unexpected_while_verifying
frame_in config host frame awaiting_asset_manifest_request =
    expect (frame.header.type == 20) Texts.expected_manifest_request
      Texts.malformed_manifest_request (decode_asset_manifest_request frame.payload)
      (on_manifest_request host)
frame_in config host frame awaiting_asset_request =
    expect (frame.header.type == 22) Texts.expected_asset_request Texts.malformed_asset_request
      (decode_asset_request frame.payload) on_asset_request
frame_in config host frame streaming_assets = fail bad_handshake Texts.unexpected_while_streaming
frame_in config host frame awaiting_ready =
    expect (frame.header.type == 5) Texts.expected_ready Texts.malformed_ready
      (decode_ready frame.payload) (λ m. on_ready host)
frame_in config host frame playing = fail bad_handshake Texts.unexpected_after_handshake
frame_in config host frame closed = fail bad_handshake Texts.unexpected_after_handshake

unfoldable pub on_frame :
    HandshakeServerConfig → HandshakeServerHost → Frame → ServerHandshake → Reaction
on_frame config host frame s = frame_in config host frame s.state s
