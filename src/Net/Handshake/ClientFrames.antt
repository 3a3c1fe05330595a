-- ===== src/Net/Handshake/ClientFrames.antt =====
-- src/net/handshake.cpp: `ClientHandshake::on_frame`.
use voxel_browser.Prelude.{
  ℕ, Bool, true, not, Option, none, some, List, [], ◌∷◌, ◌++◌, ◌==◌, if◌then◌else◌,
}
use voxel_browser.Core.VersionReq.Parse.{
  SemVer, parse_req, matches, lower_bound, print_req, print_version, parsed, refused,
}
use voxel_browser.Protocol.Result.{Result, ok, err}
use voxel_browser.Protocol.Message.{Frame}
use voxel_browser.Protocol.Handshake.{
  S2CServerInfo, decode_server_info, S2CAuthChallenge, decode_auth_challenge, S2CAuthResult,
  decode_auth_result, S2CJoinAccept, decode_join_accept, S2CDisconnect, decode_disconnect,
}
use voxel_browser.Protocol.AssetSync.{
  S2CAssetManifest, decode_asset_manifest, S2CAssetData, decode_asset_data,
}
use voxel_browser.Protocol.Messages.{auth, ready, asset_manifest_request, asset_request}
use voxel_browser.Net.Handshake.Texts
use voxel_browser.Net.Handshake.Server.{external, is_empty}
use voxel_browser.Net.Handshake.Frames.{engine_protocol_version}
use voxel_browser.Net.Handshake.Client.{
  ClientHandshake, ClientHandshakeStatus, ClientReaction, HandshakeClientConfig,
  HandshakeClientHost, auth_of, authenticating, awaiting_asset_manifest, awaiting_challenge,
  client_fail, client_poll, client_sends, connecting, failed, joined, send_auth, signing_in,
  syncing, syncing_assets,
}

-- What the pack's requirement of an engine version says against this engine; `none`: nothing.
unfoldable pub requirement_error : List ℕ → SemVer → Option (List ℕ)
requirement_error text engine = if is_empty text then none else elim (parse_req text) [
  | refused e ↦ some (Texts.invalid_requirement ++ (e ++ (b')' ∷ [])))
  | parsed req ↦
      let hint : List ℕ = elim (lower_bound req) [ none ↦ [] | some w ↦ Texts.run_update ] in
      if matches req engine
      then none
      else some (
          Texts.pack_needs ++ (print_req req ++ (Texts.you_have ++ (print_version engine ++ hint))))
]

-- The case kConnecting, once the requirement is met.
unfoldable pub accept_info :
    HandshakeClientConfig → S2CServerInfo → ClientHandshake → ClientReaction
accept_info config info c =
    if info.auth_mode == external
    then (client_sends [], record c { server_info = some info; status = awaiting_challenge })
    else (
      client_sends (auth (auth_of config config.token) ∷ []),
      record c { server_info = some info; status = authenticating },
    )

unfoldable pub on_server_info :
    HandshakeClientConfig → S2CServerInfo → ClientHandshake → ClientReaction
on_server_info config info c =
    if not (info.engine_protocol_version == engine_protocol_version)
    then client_fail Texts.version_mismatch c
    else elim (requirement_error info.engine_version_req config.engine) [
      | some text ↦ client_fail text c
      | none ↦ accept_info config info c
    ]

-- The token that is at hand without an interactive sign-in.
abbrev pub token_at_hand : HandshakeClientConfig → HandshakeClientHost → S2CAuthChallenge → List ℕ
token_at_hand config host challenge = elim host.obtain_token [
  | none ↦ config.token
  | some obtain ↦ elim (obtain challenge) [ none ↦ [] | some token ↦ token ]
]

-- The sign-in that `begin_sign_in` starts.
unfoldable pub begin_ticket :
    HandshakeClientConfig → HandshakeClientHost → Option ℕ → ClientHandshake → ClientReaction
begin_ticket config host none c =
    client_fail Texts.sign_in_unavailable (record c { sign_in_ticket = none })
begin_ticket config host (some ticket) c =
    client_poll config host (record c { sign_in_ticket = some ticket; status = signing_in })

unfoldable pub on_challenge :
    HandshakeClientConfig
    → HandshakeClientHost
    → S2CAuthChallenge
    → ClientHandshake
    → ClientReaction
on_challenge config host m c =
    let c' : ClientHandshake = record c { challenge = some m } in
    let token = token_at_hand config host m in
    elim host.begin_sign_in [
      | some begin ↦ begin_ticket config host (begin m) c'
      | none ↦
          if is_empty token
          then client_fail Texts.sign_in_required c'
          else send_auth config token c'
    ]

unfoldable pub on_auth_result :
    HandshakeClientHost → S2CAuthResult → ClientHandshake → ClientReaction
on_auth_result host m c =
    if not m.accepted
    then client_fail (if is_empty m.reason then Texts.authentication_rejected else m.reason) c
    else (
      client_sends (
          asset_manifest_request (record { known_manifest_hash = host.last_known_manifest_hash })
          ∷ []),
      record c { resolved_name = m.resolved_name; status = awaiting_asset_manifest },
    )

unfoldable pub on_manifest :
    HandshakeClientHost → S2CAssetManifest → ClientHandshake → ClientReaction
on_manifest host m c = elim (host.assets_missing m) [
  | [] ↦ (
    client_sends (asset_request (record { missing = [] }) ∷ ready (record {}) ∷ []),
    record c { status = syncing },
  )
  | h ∷ hs ↦ (
    client_sends (asset_request (record { missing = h ∷ hs }) ∷ []),
    record c { status = syncing_assets },
  )
]

unfoldable pub on_data : HandshakeClientHost → S2CAssetData → ClientHandshake → ClientReaction
on_data host m c =
    if not (host.on_asset_chunk m)
    then client_fail Texts.transfer_failed c
    else if not host.assets_all_received
    then (client_sends [], c)
    else (client_sends (ready (record {}) ∷ []), record c { status = syncing })

unfoldable pub on_join_accept : S2CJoinAccept → ClientHandshake → ClientReaction
on_join_accept m c = (
  record (client_sends []) { completed = true },
  record c { join_accept = some m; status = joined },
)

-- The check of the type and the decoding that each case begins with.
unfoldable pub client_expect :
    {A : Type 0}
    → Bool
    → List ℕ
    → List ℕ
    → Result A
    → (A → ClientHandshake → ClientReaction)
    → ClientHandshake
    → ClientReaction
client_expect expected unexpected malformed decoded handle c =
    if expected
    then (elim decoded [ err e ↦ client_fail malformed c | ok m ↦ handle m c ])
    else client_fail unexpected c

-- The switch of `on_frame`, on the machine's status.
unfoldable pub client_frame_in :
    HandshakeClientConfig
    → HandshakeClientHost
    → Frame
    → ClientHandshakeStatus
    → ClientHandshake
    → ClientReaction
client_frame_in config host frame connecting =
    client_expect (frame.header.type == 2) Texts.expected_server_info Texts.malformed_server_info
      (decode_server_info frame.payload) (on_server_info config)
client_frame_in config host frame awaiting_challenge =
    client_expect (frame.header.type == 8) Texts.expected_challenge Texts.malformed_challenge
      (decode_auth_challenge frame.payload) (on_challenge config host)
client_frame_in config host frame signing_in = client_fail Texts.unexpected_while_signing_in
client_frame_in config host frame authenticating =
    client_expect (frame.header.type == 4) Texts.expected_auth_result Texts.malformed_auth_result
      (decode_auth_result frame.payload) (on_auth_result host)
client_frame_in config host frame awaiting_asset_manifest =
    client_expect (frame.header.type == 21) Texts.expected_manifest Texts.malformed_manifest
      (decode_asset_manifest frame.payload) (on_manifest host)
client_frame_in config host frame syncing_assets =
    client_expect (frame.header.type == 23) Texts.expected_asset_data Texts.malformed_asset_data
      (decode_asset_data frame.payload) (on_data host)
client_frame_in config host frame syncing =
    client_expect (frame.header.type == 6) Texts.expected_join_accept Texts.malformed_join_accept
      (decode_join_accept frame.payload) on_join_accept
client_frame_in config host frame joined = λ c. (client_sends [], c)
client_frame_in config host frame failed = λ c. (client_sends [], c)

abbrev pub told_reason : Result S2CDisconnect → List ℕ
told_reason (ok m) = m.message
told_reason (err e) = Texts.disconnected

unfoldable pub client_on_frame :
    HandshakeClientConfig → HandshakeClientHost → Frame → ClientHandshake → ClientReaction
client_on_frame config host frame c =
    if frame.header.type == 7
    then client_fail (told_reason (decode_disconnect frame.payload)) c
    else client_frame_in config host frame c.status c
