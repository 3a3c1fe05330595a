-- ===== src/Protocol/Handshake/RoundTrip.antt =====
-- inc/vb/protocol/handshake.hpp and src/protocol/handshake.cpp: the payloads of the connection
-- handshake: what a decoder makes of an encoder's bytes.
use voxel_browser.Prelude.{
  ℕ, ◌^◌, ◌≤◌, ◌<◌, ◌≡◌, true, not, List, ◌++◌, ap, arith, le→ltb, length, All,
}
use voxel_browser.Protocol.ByteBuffer.{put_string, get_string, max_decoded_length}
use voxel_browser.Protocol.Result.{read}
use voxel_browser.Protocol.Result.Reads.{
  Reads, next, skip, done, exactly, decode_with-Reads, reject_live_if-Reads, fail_live_if-Reads,
  read_list-Reads,
}
use voxel_browser.Protocol.Result.Fields.{word, varint, boolean, string, text}
use voxel_browser.Protocol.Handshake.{
  max_auth_token_bytes, max_auth_field_bytes, max_auth_nonce_bytes, max_auth_list_entries,
  max_engine_version_req_bytes, is_auth_mode, is_disconnect_reason, C2SHello, encode_hello,
  decode_hello, S2CServerInfo, encode_server_info, decode_server_info, C2SAuth, encode_auth,
  decode_auth, AuthParam, write_auth_param, read_auth_param, S2CAuthChallenge,
  encode_auth_challenge, decode_auth_challenge, S2CReauthRequest, encode_reauth_request,
  decode_reauth_request, C2SReauth, encode_reauth, decode_reauth, S2CAuthResult, encode_auth_result,
  decode_auth_result, C2SReady, encode_ready, decode_ready, S2CJoinAccept, encode_join_accept,
  decode_join_accept, S2CDisconnect, encode_disconnect, decode_disconnect,
}

scope-Reads :
    (s : List ℕ)
    → length s ≤ max_auth_field_bytes
    → Reads (read (get_string max_auth_field_bytes)) (put_string s) s
scope-Reads s h = string max_auth_field_bytes s h (omega arith)

-- The values that the wire format can carry.
pub record C2SHelloFits (m : C2SHello) : Type 0 where
  pub engine_protocol_version : m.engine_protocol_version < 2 ^ 16
  pub client_nonce : m.client_nonce < 2 ^ 64
  pub client_version : length m.client_version ≤ max_decoded_length
  pub client_flags : m.client_flags < 2 ^ 8

-- `decode` gives back a message whose values fit the wire format from the bytes that `encode` wrote,
-- and answers trailing_bytes if more bytes follow them.
pub decode-encode_hello :
    (m : C2SHello) (extra : List ℕ)
    → C2SHelloFits m
    → decode_hello (encode_hello m ++ extra) ≡ exactly m extra
unfolding decode_hello encode_hello
decode-encode_hello m extra h = decode_with-Reads extra (
    next _ (word 2 h.engine_protocol_version) (
      next _ (word 8 h.client_nonce)
        (next _ (text h.client_version) (next _ (word 1 h.client_flags) (done _)))))

-- The values that the wire format can carry.
pub record S2CServerInfoFits (m : S2CServerInfo) : Type 0 where
  pub pack_name : length m.pack_name ≤ max_decoded_length
  pub pack_version : length m.pack_version ≤ max_decoded_length
  pub engine_protocol_version : m.engine_protocol_version < 2 ^ 16
  pub tick_rate : m.tick_rate < 2 ^ 16
  pub view_distance : m.view_distance < 2 ^ 32
  pub motd : length m.motd ≤ max_decoded_length
  pub auth_mode : m.auth_mode < 256
  pub auth_mode_valid : is_auth_mode m.auth_mode ≡ true
  pub engine_version_req : length m.engine_version_req ≤ max_engine_version_req_bytes

-- `decode` gives back a message whose values fit the wire format from the bytes that `encode` wrote,
-- and answers trailing_bytes if more bytes follow them.
pub decode-encode_server_info :
    (m : S2CServerInfo) (extra : List ℕ)
    → S2CServerInfoFits m
    → decode_server_info (encode_server_info m ++ extra) ≡ exactly m extra
unfolding decode_server_info encode_server_info
decode-encode_server_info m extra h = decode_with-Reads extra (
    next _ (text h.pack_name) (
      next _ (text h.pack_version) (
        next _ (word 2 h.engine_protocol_version) (
          next _ (word 2 h.tick_rate) (
            next _ (word 4 h.view_distance) (
              next _ (text h.motd) (
                next _ (word 1 h.auth_mode) (
                  skip _ (fail_live_if-Reads _ _ (ap not h.auth_mode_valid)) (
                    next _ (text (omega arith)) (
                      skip _ (fail_live_if-Reads _ _ (le→ltb _ _ h.engine_version_req))
                        (done _)))))))))))

-- The values that the wire format can carry.
pub record C2SAuthFits (m : C2SAuth) : Type 0 where
  pub player_name : length m.player_name ≤ max_decoded_length
  pub token : length m.token ≤ max_auth_token_bytes

-- `decode` gives back a message whose values fit the wire format from the bytes that `encode` wrote,
-- and answers trailing_bytes if more bytes follow them.
pub decode-encode_auth :
    (m : C2SAuth) (extra : List ℕ)
    → C2SAuthFits m
    → decode_auth (encode_auth m ++ extra) ≡ exactly m extra
unfolding decode_auth encode_auth
decode-encode_auth m extra h = decode_with-Reads extra (
    next _ (text h.player_name)
      (next _ (string max_auth_token_bytes _ h.token (omega arith)) (done _)))

-- The values that the wire format can carry.
pub record AuthParamFits (m : AuthParam) : Type 0 where
  pub key : length m.key ≤ max_auth_field_bytes
  pub value : length m.value ≤ max_auth_field_bytes

pub auth_param-Reads :
    (m : AuthParam) → AuthParamFits m → Reads read_auth_param (write_auth_param m) m
unfolding read_auth_param write_auth_param
auth_param-Reads m h =
    next _ (string max_auth_field_bytes _ h.key (omega arith))
      (next _ (string max_auth_field_bytes _ h.value (omega arith)) (done _))

-- The values that the wire format can carry.
pub record S2CAuthChallengeFits (m : S2CAuthChallenge) : Type 0 where
  pub provider : length m.provider ≤ max_auth_field_bytes
  pub display_name : length m.display_name ≤ max_auth_field_bytes
  pub issuer : length m.issuer ≤ max_auth_field_bytes
  pub client_id : length m.client_id ≤ max_auth_field_bytes
  pub scopes : All (λ s. length s ≤ max_auth_field_bytes) m.scopes
  pub count_scopes : length m.scopes ≤ max_auth_list_entries
  pub params : All AuthParamFits m.params
  pub count_params : length m.params ≤ max_auth_list_entries
  pub nonce : length m.nonce ≤ max_auth_nonce_bytes

-- `decode` gives back a message whose values fit the wire format from the bytes that `encode` wrote,
-- and answers trailing_bytes if more bytes follow them.
pub decode-encode_auth_challenge :
    (m : S2CAuthChallenge) (extra : List ℕ)
    → S2CAuthChallengeFits m
    → decode_auth_challenge (encode_auth_challenge m ++ extra) ≡ exactly m extra
unfolding decode_auth_challenge encode_auth_challenge
decode-encode_auth_challenge m extra h = decode_with-Reads extra (
    next _ (string max_auth_field_bytes _ h.provider (omega arith)) (
      next _ (string max_auth_field_bytes _ h.display_name (omega arith)) (
        next _ (string max_auth_field_bytes _ h.issuer (omega arith)) (
          next _ (string max_auth_field_bytes _ h.client_id (omega arith)) (
            next _ (varint (omega arith)) (
              skip _ (reject_live_if-Reads _ _ (le→ltb _ _ h.count_scopes)) (
                next _
                  (read_list-Reads (λ s. length s ≤ max_auth_field_bytes) _ _ scope-Reads _
                    h.scopes)
                  (next _ (varint (omega arith)) (
                    skip _ (reject_live_if-Reads _ _ (le→ltb _ _ h.count_params)) (
                      next _ (read_list-Reads AuthParamFits _ _ auth_param-Reads _ h.params) (
                        next _ (string max_auth_nonce_bytes _ h.nonce (omega arith))
                          (done _))))))))))))

-- The values that the wire format can carry.
pub record S2CReauthRequestFits (m : S2CReauthRequest) : Type 0 where
  pub nonce : length m.nonce ≤ max_auth_nonce_bytes
  pub grace_seconds : m.grace_seconds < 2 ^ 16

-- `decode` gives back a message whose values fit the wire format from the bytes that `encode` wrote,
-- and answers trailing_bytes if more bytes follow them.
pub decode-encode_reauth_request :
    (m : S2CReauthRequest) (extra : List ℕ)
    → S2CReauthRequestFits m
    → decode_reauth_request (encode_reauth_request m ++ extra) ≡ exactly m extra
unfolding decode_reauth_request encode_reauth_request
decode-encode_reauth_request m extra h = decode_with-Reads extra (
    next _ (string max_auth_nonce_bytes _ h.nonce (omega arith))
      (next _ (word 2 h.grace_seconds) (done _)))

-- The values that the wire format can carry.
pub record C2SReauthFits (m : C2SReauth) : Type 0 where
  pub token : length m.token ≤ max_auth_token_bytes

-- `decode` gives back a message whose values fit the wire format from the bytes that `encode` wrote,
-- and answers trailing_bytes if more bytes follow them.
pub decode-encode_reauth :
    (m : C2SReauth) (extra : List ℕ)
    → C2SReauthFits m
    → decode_reauth (encode_reauth m ++ extra) ≡ exactly m extra
unfolding decode_reauth encode_reauth
decode-encode_reauth m extra h =
    decode_with-Reads extra (next _ (string max_auth_token_bytes _ h.token (omega arith)) (done _))

-- The values that the wire format can carry.
pub record S2CAuthResultFits (m : S2CAuthResult) : Type 0 where
  pub reason : length m.reason ≤ max_decoded_length
  pub resolved_name : length m.resolved_name ≤ max_decoded_length

-- `decode` gives back a message whose values fit the wire format from the bytes that `encode` wrote,
-- and answers trailing_bytes if more bytes follow them.
pub decode-encode_auth_result :
    (m : S2CAuthResult) (extra : List ℕ)
    → S2CAuthResultFits m
    → decode_auth_result (encode_auth_result m ++ extra) ≡ exactly m extra
unfolding decode_auth_result encode_auth_result
decode-encode_auth_result m extra h =
    decode_with-Reads extra (
      next _ (boolean m.accepted) (next _ (text h.reason) (next _ (text h.resolved_name) (done _))))

-- The values that the wire format can carry.
pub record C2SReadyFits (m : C2SReady) : Type 0 where

-- `decode` gives back a message whose values fit the wire format from the bytes that `encode` wrote,
-- and answers trailing_bytes if more bytes follow them.
pub decode-encode_ready :
    (m : C2SReady) (extra : List ℕ)
    → C2SReadyFits m
    → decode_ready (encode_ready m ++ extra) ≡ exactly m extra
unfolding decode_ready encode_ready
decode-encode_ready m extra h = decode_with-Reads extra (done _)

-- The values that the wire format can carry.
pub record S2CJoinAcceptFits (m : S2CJoinAccept) : Type 0 where
  pub your_net_id : m.your_net_id < 2 ^ 32
  pub spawn_x : m.spawn_x < 2 ^ 64
  pub spawn_y : m.spawn_y < 2 ^ 64
  pub spawn_z : m.spawn_z < 2 ^ 64
  pub world_seed : m.world_seed < 2 ^ 64
  pub time_of_day : m.time_of_day < 2 ^ 32

-- `decode` gives back a message whose values fit the wire format from the bytes that `encode` wrote,
-- and answers trailing_bytes if more bytes follow them.
pub decode-encode_join_accept :
    (m : S2CJoinAccept) (extra : List ℕ)
    → S2CJoinAcceptFits m
    → decode_join_accept (encode_join_accept m ++ extra) ≡ exactly m extra
unfolding decode_join_accept encode_join_accept
decode-encode_join_accept m extra h = decode_with-Reads extra (
    next _ (word 4 h.your_net_id) (
      next _ (word 8 h.spawn_x) (
        next _ (word 8 h.spawn_y) (
          next _ (word 8 h.spawn_z)
            (next _ (word 8 h.world_seed) (next _ (word 4 h.time_of_day) (done _)))))))

-- The values that the wire format can carry.
pub record S2CDisconnectFits (m : S2CDisconnect) : Type 0 where
  pub reason : m.reason < 256
  pub reason_valid : is_disconnect_reason m.reason ≡ true
  pub message : length m.message ≤ max_decoded_length

-- `decode` gives back a message whose values fit the wire format from the bytes that `encode` wrote,
-- and answers trailing_bytes if more bytes follow them.
pub decode-encode_disconnect :
    (m : S2CDisconnect) (extra : List ℕ)
    → S2CDisconnectFits m
    → decode_disconnect (encode_disconnect m ++ extra) ≡ exactly m extra
unfolding decode_disconnect encode_disconnect
decode-encode_disconnect m extra h = decode_with-Reads extra (
    next _ (word 1 h.reason)
      (next _ (text h.message) (skip _ (fail_live_if-Reads _ _ (ap not h.reason_valid)) (done _))))
