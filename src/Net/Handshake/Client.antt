-- ===== src/Net/Handshake/Client.antt =====
-- inc/vb/net/handshake.hpp and src/net/handshake.cpp: the client's machine.
-- The host's hooks, and the sign-in ticket when the machine polls it, answer per call, as on the server.
use voxel_browser.Prelude.{
  ℕ, ◌+◌, ◌%◌, Bool, true, false, ◌||◌, not, Option, none, some, List, [], ◌∷◌, ltb, ◌==◌,
  if◌then◌else◌, length,
}
use voxel_browser.Core.VersionReq.Parse.{SemVer}
use voxel_browser.Protocol.Handshake.{
  max_auth_token_bytes, C2SHello, C2SAuth, S2CServerInfo, S2CAuthChallenge, S2CJoinAccept,
}
use voxel_browser.Protocol.AssetSync.{AssetHash, S2CAssetManifest, S2CAssetData}
use voxel_browser.Protocol.Messages.{Message, hello, auth}
use voxel_browser.Net.Handshake.Texts
use voxel_browser.Net.Handshake.Server.{is_empty}
use voxel_browser.Net.Handshake.Frames.{engine_protocol_version}

pub data ClientHandshakeStatus : Type 0 where
  connecting awaiting_challenge signing_in authenticating : ClientHandshakeStatus
  awaiting_asset_manifest syncing_assets syncing joined failed : ClientHandshakeStatus

pub record TokenPoll : Type 0 where
  pub done : Bool
  pub token : List ℕ
  pub error : List ℕ

-- `begin_sign_in` and `obtain_token` may be unset; a ticket is the handle by which it is polled.
-- `assets_all_received` answers after the chunk of the call is taken.
pub record HandshakeClientHost : Type 0 where
  pub last_known_manifest_hash : AssetHash
  pub assets_missing : S2CAssetManifest → List AssetHash
  pub on_asset_chunk : S2CAssetData → Bool
  pub assets_all_received : Bool
  pub obtain_token : Option (S2CAuthChallenge → Option (List ℕ))
  pub begin_sign_in : Option (S2CAuthChallenge → Option ℕ)
  pub poll_ticket : ℕ → TokenPoll

-- With the build: `engine_version()`, and whether VB_WITH_AUTOMATION is defined.
pub record HandshakeClientConfig : Type 0 where
  pub player_name : List ℕ
  pub token : List ℕ
  pub client_version : List ℕ
  pub client_nonce : ℕ
  pub client_flags : ℕ
  pub engine : SemVer
  pub with_automation : Bool

pub record ClientHandshakeStep : Type 0 where
  pub send : List Message
  pub completed : Bool
  pub fails : Bool
  pub failure_reason : List ℕ

pub record ClientHandshake : Type 0 where
  pub status : ClientHandshakeStatus
  pub server_info : Option S2CServerInfo
  pub join_accept : Option S2CJoinAccept
  pub resolved_name : List ℕ
  pub challenge : Option S2CAuthChallenge
  pub sign_in_ticket : Option ℕ

abbrev pub new_client : ClientHandshake
new_client = record {
  status = connecting;
  server_info = none;
  join_accept = none;
  resolved_name = [];
  challenge = none;
  sign_in_ticket = none;
}

abbrev pub client_sends : List Message → ClientHandshakeStep
client_sends messages = record {
  send = messages;
  completed = false;
  fails = false;
  failure_reason = [];
}

abbrev pub ClientReaction : Type 0
ClientReaction = ClientHandshakeStep × ClientHandshake

unfoldable pub client_fail : List ℕ → ClientHandshake → ClientReaction
client_fail reason c = (
  record (client_sends []) { fails = true; failure_reason = reason },
  record c { status = failed },
)

abbrev pub auth_of : HandshakeClientConfig → List ℕ → C2SAuth
auth_of config token = record { player_name = config.player_name; token = token }

unfoldable pub send_auth : HandshakeClientConfig → List ℕ → ClientHandshake → ClientReaction
send_auth config token c =
    if ltb max_auth_token_bytes (length token)
    then client_fail Texts.token_too_large c
    else (client_sends (auth (auth_of config token) ∷ []), record c { status = authenticating })

-- The end of `poll`, for what the ticket answers.
unfoldable pub signed_in : HandshakeClientConfig → TokenPoll → ClientHandshake → ClientReaction
signed_in config p c =
    let c' : ClientHandshake = record c { sign_in_ticket = none } in
    if not p.done
    then (client_sends [], c)
    else if not (is_empty p.error) || is_empty p.token
    then client_fail (if is_empty p.error then Texts.sign_in_cancelled else p.error) c'
    else send_auth config p.token c'

unfoldable pub poll_ticket_of :
    HandshakeClientConfig → HandshakeClientHost → Option ℕ → ClientHandshake → ClientReaction
poll_ticket_of config host none c = (client_sends [], c)
poll_ticket_of config host (some ticket) c = signed_in config (host.poll_ticket ticket) c

unfoldable pub client_poll :
    HandshakeClientConfig → HandshakeClientHost → ClientHandshake → ClientReaction
client_poll config host c = elim c.status [
  | signing_in ↦ poll_ticket_of config host c.sign_in_ticket c
  | other ↦ (client_sends [], c)
]

unfoldable pub cancel_sign_in : ClientHandshake → ClientReaction
cancel_sign_in c = elim c.status [
  | signing_in ↦ client_fail Texts.sign_in_cancelled (record c { sign_in_ticket = none })
  | other ↦ (client_sends [], c)
]

-- `flags |= kClientFlagAutomation`, which is bit 0.
abbrev pub with_flag : ℕ → ℕ
with_flag flags = if flags % 2 == 1 then flags else flags + 1

unfoldable pub hello_of : HandshakeClientConfig → C2SHello
hello_of config = record {
  engine_protocol_version = engine_protocol_version;
  client_nonce = config.client_nonce;
  client_version = config.client_version;
  client_flags =
      if config.with_automation then with_flag config.client_flags else config.client_flags;
}

unfoldable pub start : HandshakeClientConfig → ClientHandshake → ClientReaction
start config c = (client_sends (hello (hello_of config) ∷ []), record c { status = connecting })
