-- ===== src/Net/Handshake/Join.antt =====
-- src/net/handshake.cpp: a join from the first Hello to the JoinAccept.
use voxel_browser.Prelude.{ℕ, some, List, [], ◌∷◌}
use voxel_browser.Protocol.Handshake.{S2CJoinAccept}
use voxel_browser.Protocol.AssetSync.{AssetHash}
use voxel_browser.Protocol.Messages.{
  auth, server_info, asset_manifest_request, asset_manifest, asset_request, ready, join_accept,
}
use voxel_browser.Protocol.Compression.{Lz4, Lz4Laws}
use voxel_browser.Net.Handshake.Server.{
  ServerHandshake, HandshakeServerConfig, HandshakeServerHost, awaiting_auth,
  awaiting_asset_manifest_request, awaiting_asset_request, playing, AuthOutcome, no_stream,
  new_server,
}
use voxel_browser.Net.Handshake.Verdict.{resolved_name}
use voxel_browser.Net.Handshake.Frames.{on_ready, server_info_of, accept_of}
use voxel_browser.Net.Handshake.Client.{
  HandshakeClientConfig, HandshakeClientHost, authenticating, awaiting_asset_manifest, syncing,
  joined, auth_of, new_client,
}
use voxel_browser.Net.Handshake.Link.{Link}

module _ (lz4 : Lz4) (laws : Lz4Laws lz4) (config : HandshakeServerConfig)
    (host : HandshakeServerHost) (client_config : HandshakeClientConfig)
    (client_host : HandshakeClientHost) where
  -- Hello and ServerInfo; the client answers by its Auth.
  greeted : Link
  greeted = record {
    up = auth (auth_of client_config client_config.token) ∷ [];
    server = record new_server { state = awaiting_auth };
    client = record new_client {
      server_info = some (server_info_of config);
      status = authenticating;
    };
  }

  -- The server's verdict on the Auth.
  abbrev pub outcome : AuthOutcome
  outcome = host.authenticate client_config.player_name client_config.token

  abbrev pub asking : ServerHandshake
  asking = record new_server { state = awaiting_auth; requested_name = client_config.player_name }

  -- The name that the join is under.
  abbrev pub join_name : List ℕ
  join_name = resolved_name outcome asking

  abbrev pub known : AssetHash
  known = client_host.last_known_manifest_hash

  -- Auth and AuthResult; the client asks for the manifest.
  signed_on : Link
  signed_on = record {
    up = asset_manifest_request (record { known_manifest_hash = known }) ∷ [];
    server = record asking { player_name = join_name; state = awaiting_asset_manifest_request };
    client = record greeted.client { resolved_name = join_name; status = awaiting_asset_manifest };
  }

  -- The manifest, of which the client lacks nothing; it asks for no asset and is ready.
  synced : Link
  synced = record {
    up = asset_request (record { missing = [] }) ∷ ready (record {}) ∷ [];
    server = record signed_on.server {
      manifest = host.asset_manifest;
      state = awaiting_asset_request;
    };
    client = record signed_on.client { status = syncing };
  }

  granted : S2CJoinAccept
  granted = accept_of (host.on_ready join_name)

  -- Ready, the registries and JoinAccept.
  finished : Link
  finished = record {
    up = [];
    server = record synced.server {
      asset_stream = no_stream;
      grant = host.on_ready join_name;
      state = playing;
    };
    client = record synced.client { join_accept = some granted; status = joined };
  }
