-- ===== src/Protocol/Messages/RoundTrip.antt =====
-- The messages of inc/vb/protocol under their types: encoding and decoding.
use voxel_browser.Prelude.{◌^◌, ◌<◌, ◌≡◌, refl, [], append-nil, arith}
use voxel_browser.Protocol.Result.{ok}
use voxel_browser.Protocol.Messages.{Message, message_type, encode_message, decode_message}
use voxel_browser.Protocol.Messages.{
  hello, server_info, auth, auth_result, ready, join_accept, disconnect, auth_challenge,
  reauth_request, reauth, asset_manifest_request, asset_manifest, asset_request, asset_data,
  block_registry, move_params, day_night_curve, fog_params, entity_kind_registry, chunk_add,
  chunk_delta, chunk_remove, block_edit, block_edit_result, time_of_day, block_break_begin,
  block_break_stop, block_damage, keybind_registry, input_batch, entity_snapshot, client_chat,
  server_chat, ui_event, open_ui, player_join, player_leave, player_list, inventory, player_status,
}
use voxel_browser.Protocol.Handshake.RoundTrip.{
  C2SHelloFits, decode-encode_hello, S2CServerInfoFits, decode-encode_server_info, C2SAuthFits,
  decode-encode_auth, S2CAuthResultFits, decode-encode_auth_result, C2SReadyFits,
  decode-encode_ready, S2CJoinAcceptFits, decode-encode_join_accept, S2CDisconnectFits,
  decode-encode_disconnect, S2CAuthChallengeFits, decode-encode_auth_challenge,
  S2CReauthRequestFits, decode-encode_reauth_request, C2SReauthFits, decode-encode_reauth,
}
use voxel_browser.Protocol.AssetSync.RoundTrip.{
  C2SAssetManifestRequestFits, decode-encode_asset_manifest_request, S2CAssetManifestFits,
  decode-encode_asset_manifest, C2SAssetRequestFits, decode-encode_asset_request, S2CAssetDataFits,
  decode-encode_asset_data,
}
use voxel_browser.Protocol.Registry.RoundTrip.{
  S2CBlockRegistryFits, decode-encode_block_registry, S2CMoveParamsFits, decode-encode_move_params,
  S2CDayNightCurveFits, decode-encode_day_night_curve, S2CFogParamsFits, decode-encode_fog_params,
}
use voxel_browser.Protocol.EntityKinds.RoundTrip.{
  S2CEntityKindRegistryFits, decode-encode_entity_kind_registry,
}
use voxel_browser.Protocol.World.RoundTrip.{
  S2CChunkAddFits, decode-encode_chunk_add, S2CChunkDeltaFits, decode-encode_chunk_delta,
  S2CChunkRemoveFits, decode-encode_chunk_remove, C2SBlockEditFits, decode-encode_block_edit,
  S2CBlockEditResultFits, decode-encode_block_edit_result, S2CTimeOfDayFits,
  decode-encode_time_of_day, C2SBlockBreakBeginFits, decode-encode_block_break_begin,
  C2SBlockBreakStopFits, decode-encode_block_break_stop, S2CBlockDamageFits,
  decode-encode_block_damage,
}
use voxel_browser.Protocol.Input.RoundTrip.{
  S2CKeybindRegistryFits, decode-encode_keybind_registry, C2SInputBatchFits,
  decode-encode_input_batch,
}
use voxel_browser.Protocol.Snapshot.RoundTrip.{S2CEntitySnapshotFits, decode-encode_entity_snapshot}
use voxel_browser.Protocol.Chat.RoundTrip.{
  C2SChatFits, decode-encode_client_chat, S2CChatFits, decode-encode_server_chat, C2SUiEventFits,
  decode-encode_ui_event, S2COpenUiFits, decode-encode_open_ui, S2CPlayerJoinFits,
  decode-encode_player_join, S2CPlayerLeaveFits, decode-encode_player_leave, S2CPlayerListFits,
  decode-encode_player_list,
}
use voxel_browser.Protocol.Inventory.RoundTrip.{
  S2CInventoryFits, decode-encode_inventory, S2CPlayerStatusFits, decode-encode_player_status,
}

abbrev pub Fits : Message → Type 0
Fits (hello m) = C2SHelloFits m
Fits (server_info m) = S2CServerInfoFits m
Fits (auth m) = C2SAuthFits m
Fits (auth_result m) = S2CAuthResultFits m
Fits (ready m) = C2SReadyFits m
Fits (join_accept m) = S2CJoinAcceptFits m
Fits (disconnect m) = S2CDisconnectFits m
Fits (auth_challenge m) = S2CAuthChallengeFits m
Fits (reauth_request m) = S2CReauthRequestFits m
Fits (reauth m) = C2SReauthFits m
Fits (asset_manifest_request m) = C2SAssetManifestRequestFits m
Fits (asset_manifest m) = S2CAssetManifestFits m
Fits (asset_request m) = C2SAssetRequestFits m
Fits (asset_data m) = S2CAssetDataFits m
Fits (block_registry m) = S2CBlockRegistryFits m
Fits (move_params m) = S2CMoveParamsFits m
Fits (day_night_curve m) = S2CDayNightCurveFits m
Fits (fog_params m) = S2CFogParamsFits m
Fits (entity_kind_registry m) = S2CEntityKindRegistryFits m
Fits (chunk_add m) = S2CChunkAddFits m
Fits (chunk_delta m) = S2CChunkDeltaFits m
Fits (chunk_remove m) = S2CChunkRemoveFits m
Fits (block_edit m) = C2SBlockEditFits m
Fits (block_edit_result m) = S2CBlockEditResultFits m
Fits (time_of_day m) = S2CTimeOfDayFits m
Fits (block_break_begin m) = C2SBlockBreakBeginFits m
Fits (block_break_stop m) = C2SBlockBreakStopFits m
Fits (block_damage m) = S2CBlockDamageFits m
Fits (keybind_registry m) = S2CKeybindRegistryFits m
Fits (input_batch m) = C2SInputBatchFits m
Fits (entity_snapshot m) = S2CEntitySnapshotFits m
Fits (client_chat m) = C2SChatFits m
Fits (server_chat m) = S2CChatFits m
Fits (ui_event m) = C2SUiEventFits m
Fits (open_ui m) = S2COpenUiFits m
Fits (player_join m) = S2CPlayerJoinFits m
Fits (player_leave m) = S2CPlayerLeaveFits m
Fits (player_list m) = S2CPlayerListFits m
Fits (inventory m) = S2CInventoryFits m
Fits (player_status m) = S2CPlayerStatusFits m

-- The payload of every message whose values fit the wire format decodes, under the message's type, to
-- that message.
pub decode_message-encode_message :
    (m : Message) → Fits m → decode_message (message_type m) (encode_message m) ≡ ok m
unfolding decode_message message_type encode_message
decode_message-encode_message (hello m) h = rw (rw append-nil at (decode-encode_hello m [] h)) refl
decode_message-encode_message (server_info m) h =
    rw (rw append-nil at (decode-encode_server_info m [] h)) refl
decode_message-encode_message (auth m) h = rw (rw append-nil at (decode-encode_auth m [] h)) refl
decode_message-encode_message (auth_result m) h =
    rw (rw append-nil at (decode-encode_auth_result m [] h)) refl
decode_message-encode_message (ready m) h = rw (rw append-nil at (decode-encode_ready m [] h)) refl
decode_message-encode_message (join_accept m) h =
    rw (rw append-nil at (decode-encode_join_accept m [] h)) refl
decode_message-encode_message (disconnect m) h =
    rw (rw append-nil at (decode-encode_disconnect m [] h)) refl
decode_message-encode_message (auth_challenge m) h =
    rw (rw append-nil at (decode-encode_auth_challenge m [] h)) refl
decode_message-encode_message (reauth_request m) h =
    rw (rw append-nil at (decode-encode_reauth_request m [] h)) refl
decode_message-encode_message (reauth m) h =
    rw (rw append-nil at (decode-encode_reauth m [] h)) refl
decode_message-encode_message (asset_manifest_request m) h =
    rw (rw append-nil at (decode-encode_asset_manifest_request m [] h)) refl
decode_message-encode_message (asset_manifest m) h =
    rw (rw append-nil at (decode-encode_asset_manifest m [] h)) refl
decode_message-encode_message (asset_request m) h =
    rw (rw append-nil at (decode-encode_asset_request m [] h)) refl
decode_message-encode_message (asset_data m) h =
    rw (rw append-nil at (decode-encode_asset_data m [] h)) refl
decode_message-encode_message (block_registry m) h =
    rw (rw append-nil at (decode-encode_block_registry m [] h)) refl
decode_message-encode_message (move_params m) h =
    rw (rw append-nil at (decode-encode_move_params m [] h)) refl
decode_message-encode_message (day_night_curve m) h =
    rw (rw append-nil at (decode-encode_day_night_curve m [] h)) refl
decode_message-encode_message (fog_params m) h =
    rw (rw append-nil at (decode-encode_fog_params m [] h)) refl
decode_message-encode_message (entity_kind_registry m) h =
    rw (rw append-nil at (decode-encode_entity_kind_registry m [] h)) refl
decode_message-encode_message (chunk_add m) h =
    rw (rw append-nil at (decode-encode_chunk_add m [] h)) refl
decode_message-encode_message (chunk_delta m) h =
    rw (rw append-nil at (decode-encode_chunk_delta m [] h)) refl
decode_message-encode_message (chunk_remove m) h =
    rw (rw append-nil at (decode-encode_chunk_remove m [] h)) refl
decode_message-encode_message (block_edit m) h =
    rw (rw append-nil at (decode-encode_block_edit m [] h)) refl
decode_message-encode_message (block_edit_result m) h =
    rw (rw append-nil at (decode-encode_block_edit_result m [] h)) refl
decode_message-encode_message (time_of_day m) h =
    rw (rw append-nil at (decode-encode_time_of_day m [] h)) refl
decode_message-encode_message (block_break_begin m) h =
    rw (rw append-nil at (decode-encode_block_break_begin m [] h)) refl
decode_message-encode_message (block_break_stop m) h =
    rw (rw append-nil at (decode-encode_block_break_stop m [] h)) refl
decode_message-encode_message (block_damage m) h =
    rw (rw append-nil at (decode-encode_block_damage m [] h)) refl
decode_message-encode_message (keybind_registry m) h =
    rw (rw append-nil at (decode-encode_keybind_registry m [] h)) refl
decode_message-encode_message (input_batch m) h =
    rw (rw append-nil at (decode-encode_input_batch m [] h)) refl
decode_message-encode_message (entity_snapshot m) h =
    rw (rw append-nil at (decode-encode_entity_snapshot m [] h)) refl
decode_message-encode_message (client_chat m) h =
    rw (rw append-nil at (decode-encode_client_chat m [] h)) refl
decode_message-encode_message (server_chat m) h =
    rw (rw append-nil at (decode-encode_server_chat m [] h)) refl
decode_message-encode_message (ui_event m) h =
    rw (rw append-nil at (decode-encode_ui_event m [] h)) refl
decode_message-encode_message (open_ui m) h =
    rw (rw append-nil at (decode-encode_open_ui m [] h)) refl
decode_message-encode_message (player_join m) h =
    rw (rw append-nil at (decode-encode_player_join m [] h)) refl
decode_message-encode_message (player_leave m) h =
    rw (rw append-nil at (decode-encode_player_leave m [] h)) refl
decode_message-encode_message (player_list m) h =
    rw (rw append-nil at (decode-encode_player_list m [] h)) refl
decode_message-encode_message (inventory m) h =
    rw (rw append-nil at (decode-encode_inventory m [] h)) refl
decode_message-encode_message (player_status m) h =
    rw (rw append-nil at (decode-encode_player_status m [] h)) refl

pub message_type_bound : (m : Message) → message_type m < 2 ^ 16
unfolding message_type
message_type_bound (hello m) = omega arith
message_type_bound (server_info m) = omega arith
message_type_bound (auth m) = omega arith
message_type_bound (auth_result m) = omega arith
message_type_bound (ready m) = omega arith
message_type_bound (join_accept m) = omega arith
message_type_bound (disconnect m) = omega arith
message_type_bound (auth_challenge m) = omega arith
message_type_bound (reauth_request m) = omega arith
message_type_bound (reauth m) = omega arith
message_type_bound (asset_manifest_request m) = omega arith
message_type_bound (asset_manifest m) = omega arith
message_type_bound (asset_request m) = omega arith
message_type_bound (asset_data m) = omega arith
message_type_bound (block_registry m) = omega arith
message_type_bound (move_params m) = omega arith
message_type_bound (day_night_curve m) = omega arith
message_type_bound (fog_params m) = omega arith
message_type_bound (entity_kind_registry m) = omega arith
message_type_bound (chunk_add m) = omega arith
message_type_bound (chunk_delta m) = omega arith
message_type_bound (chunk_remove m) = omega arith
message_type_bound (block_edit m) = omega arith
message_type_bound (block_edit_result m) = omega arith
message_type_bound (time_of_day m) = omega arith
message_type_bound (block_break_begin m) = omega arith
message_type_bound (block_break_stop m) = omega arith
message_type_bound (block_damage m) = omega arith
message_type_bound (keybind_registry m) = omega arith
message_type_bound (input_batch m) = omega arith
message_type_bound (entity_snapshot m) = omega arith
message_type_bound (client_chat m) = omega arith
message_type_bound (server_chat m) = omega arith
message_type_bound (ui_event m) = omega arith
message_type_bound (open_ui m) = omega arith
message_type_bound (player_join m) = omega arith
message_type_bound (player_leave m) = omega arith
message_type_bound (player_list m) = omega arith
message_type_bound (inventory m) = omega arith
message_type_bound (player_status m) = omega arith
