-- ===== src/Protocol/Messages.antt =====
-- inc/vb/protocol/message.hpp and the message structs' `kType`: every message that the protocol has,
-- with its type on the wire, and the payload codec that its type selects.
pub mod RoundTrip
use voxel_browser.Prelude.{ℕ, Bool, List, ◌==◌, if◌then◌else◌}
use voxel_browser.Protocol.ByteBuffer.{bad_enum}
use voxel_browser.Protocol.Result.{Result, ok, err, bind_result}
use voxel_browser.Protocol.Handshake.{
  C2SHello, encode_hello, decode_hello, S2CServerInfo, encode_server_info, decode_server_info,
  C2SAuth, encode_auth, decode_auth, S2CAuthResult, encode_auth_result, decode_auth_result,
  C2SReady, encode_ready, decode_ready, S2CJoinAccept, encode_join_accept, decode_join_accept,
  S2CDisconnect, encode_disconnect, decode_disconnect, S2CAuthChallenge, encode_auth_challenge,
  decode_auth_challenge, S2CReauthRequest, encode_reauth_request, decode_reauth_request, C2SReauth,
  encode_reauth, decode_reauth,
}
use voxel_browser.Protocol.AssetSync.{
  C2SAssetManifestRequest, encode_asset_manifest_request, decode_asset_manifest_request,
  S2CAssetManifest, encode_asset_manifest, decode_asset_manifest, C2SAssetRequest,
  encode_asset_request, decode_asset_request, S2CAssetData, encode_asset_data, decode_asset_data,
}
use voxel_browser.Protocol.Registry.{
  S2CBlockRegistry, encode_block_registry, decode_block_registry, S2CMoveParams, encode_move_params,
  decode_move_params, S2CDayNightCurve, encode_day_night_curve, decode_day_night_curve,
  S2CFogParams, encode_fog_params, decode_fog_params,
}
use voxel_browser.Protocol.EntityKinds.{
  S2CEntityKindRegistry, encode_entity_kind_registry, decode_entity_kind_registry,
}
use voxel_browser.Protocol.World.{
  S2CChunkAdd, encode_chunk_add, decode_chunk_add, S2CChunkDelta, encode_chunk_delta,
  decode_chunk_delta, S2CChunkRemove, encode_chunk_remove, decode_chunk_remove, C2SBlockEdit,
  encode_block_edit, decode_block_edit, S2CBlockEditResult, encode_block_edit_result,
  decode_block_edit_result, S2CTimeOfDay, encode_time_of_day, decode_time_of_day,
  C2SBlockBreakBegin, encode_block_break_begin, decode_block_break_begin, C2SBlockBreakStop,
  encode_block_break_stop, decode_block_break_stop, S2CBlockDamage, encode_block_damage,
  decode_block_damage,
}
use voxel_browser.Protocol.Input.{
  S2CKeybindRegistry, encode_keybind_registry, decode_keybind_registry, C2SInputBatch,
  encode_input_batch, decode_input_batch,
}
use voxel_browser.Protocol.Snapshot.{
  S2CEntitySnapshot, encode_entity_snapshot, decode_entity_snapshot,
}
use voxel_browser.Protocol.Chat.{
  C2SChat, encode_client_chat, decode_client_chat, S2CChat, encode_server_chat, decode_server_chat,
  C2SUiEvent, encode_ui_event, decode_ui_event, S2COpenUi, encode_open_ui, decode_open_ui,
  S2CPlayerJoin, encode_player_join, decode_player_join, S2CPlayerLeave, encode_player_leave,
  decode_player_leave, S2CPlayerList, encode_player_list, decode_player_list,
}
use voxel_browser.Protocol.Inventory.{
  S2CInventory, encode_inventory, decode_inventory, S2CPlayerStatus, encode_player_status,
  decode_player_status,
}

pub data Message : Type 0 where
  hello : C2SHello → Message
  server_info : S2CServerInfo → Message
  auth : C2SAuth → Message
  auth_result : S2CAuthResult → Message
  ready : C2SReady → Message
  join_accept : S2CJoinAccept → Message
  disconnect : S2CDisconnect → Message
  auth_challenge : S2CAuthChallenge → Message
  reauth_request : S2CReauthRequest → Message
  reauth : C2SReauth → Message
  asset_manifest_request : C2SAssetManifestRequest → Message
  asset_manifest : S2CAssetManifest → Message
  asset_request : C2SAssetRequest → Message
  asset_data : S2CAssetData → Message
  block_registry : S2CBlockRegistry → Message
  move_params : S2CMoveParams → Message
  day_night_curve : S2CDayNightCurve → Message
  fog_params : S2CFogParams → Message
  entity_kind_registry : S2CEntityKindRegistry → Message
  chunk_add : S2CChunkAdd → Message
  chunk_delta : S2CChunkDelta → Message
  chunk_remove : S2CChunkRemove → Message
  block_edit : C2SBlockEdit → Message
  block_edit_result : S2CBlockEditResult → Message
  time_of_day : S2CTimeOfDay → Message
  block_break_begin : C2SBlockBreakBegin → Message
  block_break_stop : C2SBlockBreakStop → Message
  block_damage : S2CBlockDamage → Message
  keybind_registry : S2CKeybindRegistry → Message
  input_batch : C2SInputBatch → Message
  entity_snapshot : S2CEntitySnapshot → Message
  client_chat : C2SChat → Message
  server_chat : S2CChat → Message
  ui_event : C2SUiEvent → Message
  open_ui : S2COpenUi → Message
  player_join : S2CPlayerJoin → Message
  player_leave : S2CPlayerLeave → Message
  player_list : S2CPlayerList → Message
  inventory : S2CInventory → Message
  player_status : S2CPlayerStatus → Message

-- `T::kType`, by its number.
unfoldable pub message_type : Message → ℕ
message_type (hello m) = 1
message_type (server_info m) = 2
message_type (auth m) = 3
message_type (auth_result m) = 4
message_type (ready m) = 5
message_type (join_accept m) = 6
message_type (disconnect m) = 7
message_type (auth_challenge m) = 8
message_type (reauth_request m) = 9
message_type (reauth m) = 10
message_type (asset_manifest_request m) = 20
message_type (asset_manifest m) = 21
message_type (asset_request m) = 22
message_type (asset_data m) = 23
message_type (block_registry m) = 40
message_type (move_params m) = 50
message_type (day_night_curve m) = 51
message_type (fog_params m) = 52
message_type (entity_kind_registry m) = 53
message_type (chunk_add m) = 41
message_type (chunk_delta m) = 42
message_type (chunk_remove m) = 43
message_type (block_edit m) = 44
message_type (block_edit_result m) = 45
message_type (time_of_day m) = 46
message_type (block_break_begin m) = 48
message_type (block_break_stop m) = 49
message_type (block_damage m) = 54
message_type (keybind_registry m) = 47
message_type (input_batch m) = 80
message_type (entity_snapshot m) = 60
message_type (client_chat m) = 100
message_type (server_chat m) = 101
message_type (ui_event m) = 102
message_type (open_ui m) = 103
message_type (player_join m) = 104
message_type (player_leave m) = 105
message_type (player_list m) = 106
message_type (inventory m) = 107
message_type (player_status m) = 108

unfoldable pub encode_message : Message → List ℕ
encode_message (hello m) = encode_hello m
encode_message (server_info m) = encode_server_info m
encode_message (auth m) = encode_auth m
encode_message (auth_result m) = encode_auth_result m
encode_message (ready m) = encode_ready m
encode_message (join_accept m) = encode_join_accept m
encode_message (disconnect m) = encode_disconnect m
encode_message (auth_challenge m) = encode_auth_challenge m
encode_message (reauth_request m) = encode_reauth_request m
encode_message (reauth m) = encode_reauth m
encode_message (asset_manifest_request m) = encode_asset_manifest_request m
encode_message (asset_manifest m) = encode_asset_manifest m
encode_message (asset_request m) = encode_asset_request m
encode_message (asset_data m) = encode_asset_data m
encode_message (block_registry m) = encode_block_registry m
encode_message (move_params m) = encode_move_params m
encode_message (day_night_curve m) = encode_day_night_curve m
encode_message (fog_params m) = encode_fog_params m
encode_message (entity_kind_registry m) = encode_entity_kind_registry m
encode_message (chunk_add m) = encode_chunk_add m
encode_message (chunk_delta m) = encode_chunk_delta m
encode_message (chunk_remove m) = encode_chunk_remove m
encode_message (block_edit m) = encode_block_edit m
encode_message (block_edit_result m) = encode_block_edit_result m
encode_message (time_of_day m) = encode_time_of_day m
encode_message (block_break_begin m) = encode_block_break_begin m
encode_message (block_break_stop m) = encode_block_break_stop m
encode_message (block_damage m) = encode_block_damage m
encode_message (keybind_registry m) = encode_keybind_registry m
encode_message (input_batch m) = encode_input_batch m
encode_message (entity_snapshot m) = encode_entity_snapshot m
encode_message (client_chat m) = encode_client_chat m
encode_message (server_chat m) = encode_server_chat m
encode_message (ui_event m) = encode_ui_event m
encode_message (open_ui m) = encode_open_ui m
encode_message (player_join m) = encode_player_join m
encode_message (player_leave m) = encode_player_leave m
encode_message (player_list m) = encode_player_list m
encode_message (inventory m) = encode_inventory m
encode_message (player_status m) = encode_player_status m

abbrev as_message {ℓ} : {A : Type ℓ} → (A → Message) → Result A → Result Message
as_message make r = bind_result r (λ a. ok (make a))

-- The `decode` of the struct whose `kType` this is; `bad_enum` for a number that is none.
unfoldable pub decode_message : ℕ → List ℕ → Result Message
decode_message type payload =
    if type == 1
    then as_message hello (decode_hello payload)
    else if type == 2
    then as_message server_info (decode_server_info payload)
    else if type == 3
    then as_message auth (decode_auth payload)
    else if type == 4
    then as_message auth_result (decode_auth_result payload)
    else if type == 5
    then as_message ready (decode_ready payload)
    else if type == 6
    then as_message join_accept (decode_join_accept payload)
    else if type == 7
    then as_message disconnect (decode_disconnect payload)
    else if type == 8
    then as_message auth_challenge (decode_auth_challenge payload)
    else if type == 9
    then as_message reauth_request (decode_reauth_request payload)
    else if type == 10
    then as_message reauth (decode_reauth payload)
    else if type == 20
    then as_message asset_manifest_request (decode_asset_manifest_request payload)
    else if type == 21
    then as_message asset_manifest (decode_asset_manifest payload)
    else if type == 22
    then as_message asset_request (decode_asset_request payload)
    else if type == 23
    then as_message asset_data (decode_asset_data payload)
    else if type == 40
    then as_message block_registry (decode_block_registry payload)
    else if type == 50
    then as_message move_params (decode_move_params payload)
    else if type == 51
    then as_message day_night_curve (decode_day_night_curve payload)
    else if type == 52
    then as_message fog_params (decode_fog_params payload)
    else if type == 53
    then as_message entity_kind_registry (decode_entity_kind_registry payload)
    else if type == 41
    then as_message chunk_add (decode_chunk_add payload)
    else if type == 42
    then as_message chunk_delta (decode_chunk_delta payload)
    else if type == 43
    then as_message chunk_remove (decode_chunk_remove payload)
    else if type == 44
    then as_message block_edit (decode_block_edit payload)
    else if type == 45
    then as_message block_edit_result (decode_block_edit_result payload)
    else if type == 46
    then as_message time_of_day (decode_time_of_day payload)
    else if type == 48
    then as_message block_break_begin (decode_block_break_begin payload)
    else if type == 49
    then as_message block_break_stop (decode_block_break_stop payload)
    else if type == 54
    then as_message block_damage (decode_block_damage payload)
    else if type == 47
    then as_message keybind_registry (decode_keybind_registry payload)
    else if type == 80
    then as_message input_batch (decode_input_batch payload)
    else if type == 60
    then as_message entity_snapshot (decode_entity_snapshot payload)
    else if type == 100
    then as_message client_chat (decode_client_chat payload)
    else if type == 101
    then as_message server_chat (decode_server_chat payload)
    else if type == 102
    then as_message ui_event (decode_ui_event payload)
    else if type == 103
    then as_message open_ui (decode_open_ui payload)
    else if type == 104
    then as_message player_join (decode_player_join payload)
    else if type == 105
    then as_message player_leave (decode_player_leave payload)
    else if type == 106
    then as_message player_list (decode_player_list payload)
    else if type == 107
    then as_message inventory (decode_inventory payload)
    else if type == 108
    then as_message player_status (decode_player_status payload)
    else err bad_enum
