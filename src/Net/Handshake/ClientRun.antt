-- ===== src/Net/Handshake/ClientRun.antt =====
-- src/net/handshake.cpp: the client's machine along a list of calls, and with which server it joins.
use voxel_browser.Prelude.{
  ◌==◌, ◌≡◌, refl, sym, some, List, [], ◌∷◌, arith, subst, ◌⊎◌, inl, inr, Bool-cases,
}
use voxel_browser.Core.VersionReq.Parse.{SemVer}
use voxel_browser.Protocol.Message.{Frame}
use voxel_browser.Protocol.Handshake.{S2CServerInfo, S2CJoinAccept, decode_disconnect}
use voxel_browser.Net.Handshake.Client.{
  ClientHandshake, ClientHandshakeStatus, HandshakeClientConfig, HandshakeClientHost,
  ClientReaction, connecting, awaiting_challenge, signing_in, authenticating,
  awaiting_asset_manifest, syncing_assets, syncing, joined, failed, new_client, client_poll,
  cancel_sign_in, client_sends,
}
use voxel_browser.Net.Handshake.ClientFrames.{
  on_challenge, on_auth_result, on_manifest, on_data, on_join_accept, client_frame_in,
  client_on_frame, told_reason,
}
use voxel_browser.Net.Handshake.ClientOrder.{
  ClientCall, arrives, polls, cancels, client_react, client_expect_lem,
}
use voxel_browser.Net.Handshake.ClientGate.{
  Gated, Keeps, Keeps-Gated, Suits, accepted, cancel_sign_in-cases, client_fail-Gated,
  client_poll-cases, is_joined, is_unmet, met, on_auth_result-Keeps, on_challenge-Keeps,
  on_data-Keeps, on_manifest-Keeps, on_server_info-Gated,
}

client_frame_in-Gated :
    (config : HandshakeClientConfig) (host : HandshakeClientHost) (f : Frame)
    (a : ClientHandshakeStatus) (c : ClientHandshake)
    → c.status ≡ a
    → Gated config.engine c
    → Gated config.engine (client_frame_in config host f a c).1
unfolding client_frame_in is_unmet on_join_accept
client_frame_in-Gated config host f connecting c e g =
    client_expect_lem (λ r. Gated config.engine r.1) _ _ _ _ _ c (client_fail-Gated _ c)
      (λ m. on_server_info-Gated config m c)
client_frame_in-Gated config host f awaiting_challenge c e g =
    client_expect_lem (λ r. Gated config.engine r.1) _ _ _ _ _ c (client_fail-Gated _ c)
      (λ m.
        Keeps-Gated _ c (on_challenge config host m c) (met config.engine c (ground (arith, e)) g)
          (on_challenge-Keeps config host m c))
client_frame_in-Gated config host f signing_in c e g = client_fail-Gated _ c _
client_frame_in-Gated config host f authenticating c e g =
    client_expect_lem (λ r. Gated config.engine r.1) _ _ _ _ _ c (client_fail-Gated _ c)
      (λ m.
        Keeps-Gated _ c (on_auth_result host m c) (met config.engine c (ground (arith, e)) g)
          (on_auth_result-Keeps host m c))
client_frame_in-Gated config host f awaiting_asset_manifest c e g =
    client_expect_lem (λ r. Gated config.engine r.1) _ _ _ _ _ c (client_fail-Gated _ c)
      (λ m.
        Keeps-Gated _ c (on_manifest host m c) (met config.engine c (ground (arith, e)) g)
          (on_manifest-Keeps host m c))
client_frame_in-Gated config host f syncing_assets c e g =
    client_expect_lem (λ r. Gated config.engine r.1) _ _ _ _ _ c (client_fail-Gated _ c)
      (λ m.
        Keeps-Gated _ c (on_data host m c) (met config.engine c (ground (arith, e)) g)
          (on_data-Keeps host m c e))
client_frame_in-Gated config host f syncing c e g =
    client_expect_lem (λ r. Gated config.engine r.1) _ _ _ _ _ c (client_fail-Gated _ c)
      (λ m. (inr (met config.engine c (ground (arith, e)) g), inr (m, refl)))
client_frame_in-Gated config host f joined c e g = g
client_frame_in-Gated config host f failed c e g = g

client_on_frame-Gated :
    (config : HandshakeClientConfig) (host : HandshakeClientHost) (f : Frame) (c : ClientHandshake)
    → Gated config.engine c
    → Gated config.engine (client_on_frame config host f c).1
unfolding client_on_frame
client_on_frame-Gated config host f c g = elim (Bool-cases (f.header.type == 7)) [
  | inl e ↦ rw e (client_fail-Gated config.engine c (told_reason (decode_disconnect f.payload)))
  | inr e ↦ rw e (client_frame_in-Gated config host f c.status c refl g)
]

-- A call that works only while the player signs in.
sign_in-Gated :
    (engine : SemVer) (c : ClientHandshake) (r : ClientReaction)
    → ((c.status ≡ signing_in) × Keeps c r) ⊎ (r ≡ (client_sends [], c))
    → Gated engine c
    → Gated engine r.1
unfolding is_unmet
sign_in-Gated engine c r (inl (e, k)) g =
    Keeps-Gated engine c r (met engine c (ground (arith, e)) g) k
sign_in-Gated engine c r (inr e) g = subst (λ (x : ClientReaction). Gated engine x.1) (sym e) g

client_react-Gated :
    (config : HandshakeClientConfig) (call : ClientCall) (c : ClientHandshake)
    → Gated config.engine c
    → Gated config.engine (client_react config call c).1
unfolding client_react
client_react-Gated config (arrives host f) c g = client_on_frame-Gated config host f c g
client_react-Gated config (polls host) c g =
    sign_in-Gated config.engine c (client_poll config host c) (client_poll-cases config host c) g
client_react-Gated config cancels c g =
    sign_in-Gated config.engine c (cancel_sign_in c) (cancel_sign_in-cases c) g

-- The machine after these calls.
unfoldable pub client_run :
    HandshakeClientConfig → List ClientCall → ClientHandshake → ClientHandshake
client_run config [] c = c
client_run config (call ∷ calls) c = client_run config calls (client_react config call c).1

client_run-Gated :
    (config : HandshakeClientConfig) (calls : List ClientCall) (c : ClientHandshake)
    → Gated config.engine c
    → Gated config.engine (client_run config calls c)
unfolding client_run
client_run-Gated config [] c g = g
client_run-Gated config (call ∷ calls) c g =
    client_run-Gated config calls (client_react config call c).1
      (client_react-Gated config call c g)

-- Where calls took a new machine to kJoined, it holds the server's JoinAccept and the information of a
-- server that speaks this protocol version and whose pack asks for no engine version, or for a requirement
-- that parses and that this engine's version matches.
pub client_run-joined :
    (config : HandshakeClientConfig) (calls : List ClientCall)
    → (client_run config calls new_client).status ≡ joined
    → ((m : S2CJoinAccept) × ((client_run config calls new_client).join_accept ≡ some m))
      × ((info : S2CServerInfo) × ((client_run config calls new_client).server_info ≡ some info)
          × Suits config.engine info)
unfolding is_unmet is_joined
client_run-joined config calls e =
    let g = client_run-Gated config calls new_client (inl refl, inl refl) in
    (
      accepted (client_run config calls new_client) (ground (arith, e)) g.1,
      met config.engine (client_run config calls new_client) (ground (arith, e)) g,
    )
