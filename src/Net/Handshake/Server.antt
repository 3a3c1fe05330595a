-- ===== src/Net/Handshake/Server.antt =====
-- inc/vb/net/handshake.hpp and src/net/handshake.cpp: the state of the server's machine, and timeouts.
-- A call of a host's hook is a field of `HandshakeServerHost`, given to each call of the machine, since
-- its answers change from call to call. A ticket is the handle by which the host polls it. `send` holds
-- the messages that `frame_message` turns into frames. A time in seconds, a double, is its bit pattern.
use voxel_browser.Prelude.{ℕ, Bool, true, false, Option, none, List, [], ◌∷◌, ◌==◌, if◌then◌else◌}
use voxel_browser.Protocol.Handshake.{S2CAuthChallenge}
use voxel_browser.Protocol.AssetSync.{AssetHash, AssetEntryRecord}
use voxel_browser.Protocol.Registry.{
  BlockRegistryRecord, S2CMoveParams, DayNightKeyframeRecord, S2CFogParams,
}
use voxel_browser.Protocol.EntityKinds.{EntityKindRegistryRecord}
use voxel_browser.Protocol.Messages.{Message, disconnect}
use voxel_browser.Net.Handshake.Texts.{handshake_timed_out}

pub data ServerHandshakeState : Type 0 where
  awaiting_hello awaiting_auth verifying_auth : ServerHandshakeState
  awaiting_asset_manifest_request awaiting_asset_request streaming_assets : ServerHandshakeState
  awaiting_ready playing closed : ServerHandshakeState

-- The values of DisconnectReason that the handshake uses.
abbrev pub server_full : ℕ
server_full = 1

abbrev pub protocol_mismatch : ℕ
protocol_mismatch = 2

abbrev pub auth_failed : ℕ
auth_failed = 3

abbrev pub timeout : ℕ
timeout = 6

abbrev pub protocol_error : ℕ
protocol_error = 7

abbrev pub bad_handshake : ℕ
bad_handshake = 8

-- AuthMode::kExternal.
abbrev pub external : ℕ
external = 2

pub record HandshakeServerConfig : Type 0 where
  pub pack_name : List ℕ
  pub pack_version : List ℕ
  pub tick_rate : ℕ
  pub view_distance : ℕ
  pub motd : List ℕ
  pub engine_version_req : List ℕ
  pub auth_mode : ℕ
  pub max_players : ℕ
  pub handshake_timeout_seconds : ℕ
  pub auth_timeout_seconds : ℕ
  pub accept_automation_clients : Bool

pub record LoginData : Type 0 where
  pub provider : List ℕ
  pub issuer : List ℕ
  pub subject : List ℕ
  pub name : List ℕ
  pub claims_json : List ℕ
  pub issued_at : ℕ
  pub expires_at : ℕ

-- The field `ok` is `accepted` here.
pub record AuthOutcome : Type 0 where
  pub accepted : Bool
  pub reason : List ℕ
  pub resolved_name : List ℕ
  pub login : Option LoginData

pub record JoinGrant : Type 0 where
  pub net_id : ℕ
  pub spawn_x : ℕ
  pub spawn_y : ℕ
  pub spawn_z : ℕ
  pub world_seed : ℕ
  pub time_of_day : ℕ

-- `assetsync::Manifest`.
pub record Manifest : Type 0 where
  pub entries : List AssetEntryRecord
  pub manifest_hash : AssetHash
  pub total_bytes : ℕ

-- `begin_authenticate` may be unset, and may return no ticket; `poll_ticket` calls a ticket.
pub record HandshakeServerHost : Type 0 where
  pub current_player_count : ℕ
  pub authenticate : List ℕ → List ℕ → AuthOutcome
  pub auth_challenge : Option S2CAuthChallenge
  pub begin_authenticate : Option (List ℕ → List ℕ → Option ℕ)
  pub poll_ticket : ℕ → Option AuthOutcome
  pub resolve_name : List ℕ → LoginData → List ℕ
  pub join_veto : List ℕ → LoginData → Bool
  pub on_ready : List ℕ → JoinGrant
  pub block_registry : Option (List BlockRegistryRecord)
  pub move_params : Option S2CMoveParams
  pub day_night_curve : Option (List DayNightKeyframeRecord)
  pub fog_params : Option S2CFogParams
  pub keybind_registry : Option (List (List ℕ))
  pub entity_kind_registry : Option (List EntityKindRegistryRecord)
  pub asset_manifest : Option Manifest
  pub asset_file_bytes : AssetHash → Option (List ℕ)

pub record ServerHandshakeStep : Type 0 where
  pub send : List Message
  pub completed : Bool
  pub disconnects : Bool
  pub disconnect_reason : ℕ
  pub player_name : List ℕ

pub record AssetStreamState : Type 0 where
  pub pending : List AssetHash
  pub pending_idx : ℕ
  pub current_bytes : List ℕ
  pub current_chunk_idx : ℕ
  pub current_total_chunks : ℕ
  pub current_loaded : Bool

pub record ServerHandshake : Type 0 where
  pub state : ServerHandshakeState
  pub player_name : List ℕ
  pub requested_name : List ℕ
  pub auth_nonce : List ℕ
  pub auth_ticket : Option ℕ
  pub login : Option LoginData
  pub grant : JoinGrant
  pub manifest : Option Manifest
  pub asset_stream : AssetStreamState

abbrev pub no_grant : JoinGrant
no_grant = record {
  net_id = 0;
  spawn_x = 0;
  spawn_y = 0x4050000000000000;
  spawn_z = 0;
  world_seed = 0;
  time_of_day = 0;
}

abbrev pub no_stream : AssetStreamState
no_stream = record {
  pending = [];
  pending_idx = 0;
  current_bytes = [];
  current_chunk_idx = 0;
  current_total_chunks = 0;
  current_loaded = false;
}

abbrev pub new_server : ServerHandshake
new_server = record {
  state = awaiting_hello;
  player_name = [];
  requested_name = [];
  auth_nonce = [];
  auth_ticket = none;
  login = none;
  grant = no_grant;
  manifest = none;
  asset_stream = no_stream;
}

-- A default-constructed step, with these messages.
abbrev pub sends : List Message → ServerHandshakeStep
sends messages = record {
  send = messages;
  completed = false;
  disconnects = false;
  disconnect_reason = 0;
  player_name = [];
}

-- What a call returns, and the machine after it.
abbrev pub Reaction : Type 0
Reaction = ServerHandshakeStep × ServerHandshake

abbrev pub is_empty : List ℕ → Bool
is_empty [] = true
is_empty (b ∷ bs) = false

-- `disconnect_frame`.
abbrev pub disconnect_message : ℕ → List ℕ → Message
disconnect_message reason message = disconnect (record { reason = reason; message = message })

unfoldable pub fail : ℕ → List ℕ → ServerHandshake → Reaction
fail reason human_message s = (
  record (sends (disconnect_message reason human_message ∷ [])) {
    disconnects = true;
    disconnect_reason = reason;
  },
  record s { state = closed },
)

unfoldable pub on_timeout : ServerHandshake → Reaction
on_timeout s = elim s.state [
  | playing ↦ (sends [], s)
  | closed ↦ (sends [], s)
  | other ↦ fail timeout handshake_timed_out s
]

unfoldable pub timeout_seconds : HandshakeServerConfig → ServerHandshake → ℕ
timeout_seconds config s =
    let long =
      if config.auth_mode == external
      then config.auth_timeout_seconds
      else config.handshake_timeout_seconds in
    elim s.state [
      | awaiting_auth ↦ long
      | verifying_auth ↦ long
      | other ↦ config.handshake_timeout_seconds
    ]
