-- ===== src/Protocol/Handshake.antt =====
-- inc/vb/protocol/handshake.hpp and src/protocol/handshake.cpp: the payloads of the connection handshake.
-- A string is the list of its bytes, a double its bit pattern, and an enum with a fixed underlying
-- type its number, since a cast from the wire can give it any value of that type.
pub mod RoundTrip
use voxel_browser.Prelude.{
  ℕ, zero, suc, ◌+◌, ◌*◌, ◌^◌, ◌≤◌, ◌<◌, ◌≡◌, Bool, true, false, not, ◌||◌, ◌&&◌, Option, none,
  some, List, [], ◌∷◌, ◌++◌, map, ap, arith, ltb, leb, ◌==◌, if◌then◌else◌, le→ltb, length, All,
  refl,
}
use voxel_browser.Prelude.Int.{ℤ, InRange}
use voxel_browser.Protocol.ByteBuffer.{
  put_le, get_le, get_u8, put_boolean, get_boolean, put_varint, get_varint, put_string, get_string,
  get_bytes, max_decoded_length, length_exceeded, bad_enum, malformed, Reader, fail,
}
use voxel_browser.Protocol.ByteBuffer.Signed.{
  put_i32, get_i32, put_svarint, get_svarint_32, get_varint_32,
}
use voxel_browser.Protocol.Result.{
  Result, ok, err, Decoder, ◌>>=◌, ◌>>◌, ret, read, reject_if, reject_live_if, fail_live_if,
  read_list, read_capped, write_optional, read_optional, decode_with, concat,
}

abbrev pub max_auth_token_bytes : ℕ
max_auth_token_bytes = 16 * 1024

abbrev pub max_auth_field_bytes : ℕ
max_auth_field_bytes = 2048

abbrev pub max_auth_nonce_bytes : ℕ
max_auth_nonce_bytes = 256

abbrev pub max_auth_list_entries : ℕ
max_auth_list_entries = 16

abbrev pub max_engine_version_req_bytes : ℕ
max_engine_version_req_bytes = 128

-- `valid(AuthMode)`: kNone, kToken, kExternal.
unfoldable pub is_auth_mode : ℕ → Bool
is_auth_mode mode = mode == 0 || mode == 1 || mode == 2

-- `valid(DisconnectReason)`: kUnknown up to kBadHandshake.
unfoldable pub is_disconnect_reason : ℕ → Bool
is_disconnect_reason reason = leb reason 8

pub record C2SHello : Type 0 where
  pub engine_protocol_version : ℕ
  pub client_nonce : ℕ
  pub client_version : List ℕ
  pub client_flags : ℕ

unfoldable pub encode_hello : C2SHello → List ℕ
encode_hello m = concat (
    put_le 2 m.engine_protocol_version
    ∷ put_le 8 m.client_nonce
    ∷ put_string m.client_version
    ∷ put_le 1 m.client_flags
    ∷ [])

unfoldable pub decode_hello : List ℕ → Result C2SHello
decode_hello = decode_with do
  engine_protocol_version ← read (get_le 2)
  client_nonce ← read (get_le 8)
  client_version ← read (get_string max_decoded_length)
  client_flags ← read get_u8
  ret (record {
    engine_protocol_version = engine_protocol_version;
    client_nonce = client_nonce;
    client_version = client_version;
    client_flags = client_flags;
  })

pub record S2CServerInfo : Type 0 where
  pub pack_name : List ℕ
  pub pack_version : List ℕ
  pub engine_protocol_version : ℕ
  pub tick_rate : ℕ
  pub view_distance : ℕ
  pub motd : List ℕ
  pub auth_mode : ℕ
  pub engine_version_req : List ℕ

unfoldable pub encode_server_info : S2CServerInfo → List ℕ
encode_server_info m = concat (
    put_string m.pack_name
    ∷ put_string m.pack_version
    ∷ put_le 2 m.engine_protocol_version
    ∷ put_le 2 m.tick_rate
    ∷ put_le 4 m.view_distance
    ∷ put_string m.motd
    ∷ put_le 1 m.auth_mode
    ∷ put_string m.engine_version_req
    ∷ [])

unfoldable pub decode_server_info : List ℕ → Result S2CServerInfo
decode_server_info = decode_with do
  pack_name ← read (get_string max_decoded_length)
  pack_version ← read (get_string max_decoded_length)
  engine_protocol_version ← read (get_le 2)
  tick_rate ← read (get_le 2)
  view_distance ← read (get_le 4)
  motd ← read (get_string max_decoded_length)
  auth_mode ← read get_u8
  fail_live_if (not (is_auth_mode auth_mode)) bad_enum
  engine_version_req ← read (get_string max_decoded_length)
  fail_live_if (ltb max_engine_version_req_bytes (length engine_version_req)) length_exceeded
  ret (record {
    pack_name = pack_name;
    pack_version = pack_version;
    engine_protocol_version = engine_protocol_version;
    tick_rate = tick_rate;
    view_distance = view_distance;
    motd = motd;
    auth_mode = auth_mode;
    engine_version_req = engine_version_req;
  })

pub record C2SAuth : Type 0 where
  pub player_name : List ℕ
  pub token : List ℕ

unfoldable pub encode_auth : C2SAuth → List ℕ
encode_auth m = concat (put_string m.player_name ∷ put_string m.token ∷ [])

unfoldable pub decode_auth : List ℕ → Result C2SAuth
decode_auth = decode_with do
  player_name ← read (get_string max_decoded_length)
  token ← read (get_string max_auth_token_bytes)
  ret (record { player_name = player_name; token = token })

-- A pair of `params`.
pub record AuthParam : Type 0 where
  pub key : List ℕ
  pub value : List ℕ

unfoldable pub write_auth_param : AuthParam → List ℕ
write_auth_param m = concat (put_string m.key ∷ put_string m.value ∷ [])

unfoldable pub read_auth_param : Decoder AuthParam
read_auth_param = do
  key ← read (get_string max_auth_field_bytes)
  value ← read (get_string max_auth_field_bytes)
  ret (record { key = key; value = value })

pub record S2CAuthChallenge : Type 0 where
  pub provider : List ℕ
  pub display_name : List ℕ
  pub issuer : List ℕ
  pub client_id : List ℕ
  pub scopes : List (List ℕ)
  pub params : List AuthParam
  pub nonce : List ℕ

unfoldable pub encode_auth_challenge : S2CAuthChallenge → List ℕ
encode_auth_challenge m = concat (
    put_string m.provider
    ∷ put_string m.display_name
    ∷ put_string m.issuer
    ∷ put_string m.client_id
    ∷ put_varint (length m.scopes)
    ∷ concat (map put_string m.scopes)
    ∷ put_varint (length m.params)
    ∷ concat (map write_auth_param m.params)
    ∷ put_string m.nonce
    ∷ [])

unfoldable pub decode_auth_challenge : List ℕ → Result S2CAuthChallenge
decode_auth_challenge = decode_with do
  provider ← read (get_string max_auth_field_bytes)
  display_name ← read (get_string max_auth_field_bytes)
  issuer ← read (get_string max_auth_field_bytes)
  client_id ← read (get_string max_auth_field_bytes)
  count_scopes ← read get_varint
  reject_live_if (ltb max_auth_list_entries count_scopes) length_exceeded
  scopes ← read_list count_scopes (read (get_string max_auth_field_bytes))
  count_params ← read get_varint
  reject_live_if (ltb max_auth_list_entries count_params) length_exceeded
  params ← read_list count_params read_auth_param
  nonce ← read (get_string max_auth_nonce_bytes)
  ret (record {
    provider = provider;
    display_name = display_name;
    issuer = issuer;
    client_id = client_id;
    scopes = scopes;
    params = params;
    nonce = nonce;
  })

pub record S2CReauthRequest : Type 0 where
  pub nonce : List ℕ
  pub grace_seconds : ℕ

unfoldable pub encode_reauth_request : S2CReauthRequest → List ℕ
encode_reauth_request m = concat (put_string m.nonce ∷ put_le 2 m.grace_seconds ∷ [])

unfoldable pub decode_reauth_request : List ℕ → Result S2CReauthRequest
decode_reauth_request = decode_with do
  nonce ← read (get_string max_auth_nonce_bytes)
  grace_seconds ← read (get_le 2)
  ret (record { nonce = nonce; grace_seconds = grace_seconds })

pub record C2SReauth : Type 0 where
  pub token : List ℕ

unfoldable pub encode_reauth : C2SReauth → List ℕ
encode_reauth m = concat (put_string m.token ∷ [])

unfoldable pub decode_reauth : List ℕ → Result C2SReauth
decode_reauth =
    decode_with do token ← read (get_string max_auth_token_bytes); ret (record { token = token })

-- The field `ok` is `accepted` here.
pub record S2CAuthResult : Type 0 where
  pub accepted : Bool
  pub reason : List ℕ
  pub resolved_name : List ℕ

unfoldable pub encode_auth_result : S2CAuthResult → List ℕ
encode_auth_result m =
    concat (put_boolean m.accepted ∷ put_string m.reason ∷ put_string m.resolved_name ∷ [])

unfoldable pub decode_auth_result : List ℕ → Result S2CAuthResult
decode_auth_result = decode_with do
  accepted ← read get_boolean
  reason ← read (get_string max_decoded_length)
  resolved_name ← read (get_string max_decoded_length)
  ret (record { accepted = accepted; reason = reason; resolved_name = resolved_name })

pub record C2SReady : Type 0 where

unfoldable pub encode_ready : C2SReady → List ℕ
encode_ready m = concat []

unfoldable pub decode_ready : List ℕ → Result C2SReady
decode_ready = decode_with do ret (record {})

pub record S2CJoinAccept : Type 0 where
  pub your_net_id : ℕ
  pub spawn_x : ℕ
  pub spawn_y : ℕ
  pub spawn_z : ℕ
  pub world_seed : ℕ
  pub time_of_day : ℕ

unfoldable pub encode_join_accept : S2CJoinAccept → List ℕ
encode_join_accept m = concat (
    put_le 4 m.your_net_id
    ∷ put_le 8 m.spawn_x
    ∷ put_le 8 m.spawn_y
    ∷ put_le 8 m.spawn_z
    ∷ put_le 8 m.world_seed
    ∷ put_le 4 m.time_of_day
    ∷ [])

unfoldable pub decode_join_accept : List ℕ → Result S2CJoinAccept
decode_join_accept = decode_with do
  your_net_id ← read (get_le 4)
  spawn_x ← read (get_le 8)
  spawn_y ← read (get_le 8)
  spawn_z ← read (get_le 8)
  world_seed ← read (get_le 8)
  time_of_day ← read (get_le 4)
  ret (record {
    your_net_id = your_net_id;
    spawn_x = spawn_x;
    spawn_y = spawn_y;
    spawn_z = spawn_z;
    world_seed = world_seed;
    time_of_day = time_of_day;
  })

pub record S2CDisconnect : Type 0 where
  pub reason : ℕ
  pub message : List ℕ

unfoldable pub encode_disconnect : S2CDisconnect → List ℕ
encode_disconnect m = concat (put_le 1 m.reason ∷ put_string m.message ∷ [])

unfoldable pub decode_disconnect : List ℕ → Result S2CDisconnect
decode_disconnect = decode_with do
  reason ← read get_u8
  message ← read (get_string max_decoded_length)
  fail_live_if (not (is_disconnect_reason reason)) bad_enum
  ret (record { reason = reason; message = message })
