-- ===== src/Net/Handshake/ClientOrder.antt =====
-- src/net/handshake.cpp: the client's machine as the calls that it gets, against the order of its statuses.
use voxel_browser.Prelude.{
  ℕ, ◌==◌, ◌≡◌, refl, Bool, true, false, List, [], arith, inl, inr, Bool-cases,
}
use voxel_browser.Protocol.Result.{Result, ok, err}
use voxel_browser.Protocol.Message.{Frame}
use voxel_browser.Protocol.Handshake.{
  S2CServerInfo, S2CAuthChallenge, S2CAuthResult, S2CJoinAccept, decode_disconnect,
}
use voxel_browser.Protocol.AssetSync.{S2CAssetManifest, S2CAssetData}
use voxel_browser.Net.Handshake.Client.{
  ClientHandshake, ClientHandshakeStatus, HandshakeClientConfig, HandshakeClientHost, TokenPoll,
  ClientReaction, connecting, awaiting_challenge, signing_in, authenticating,
  awaiting_asset_manifest, syncing_assets, syncing, joined, failed, client_fail, send_auth,
  signed_in, poll_ticket_of, client_poll, cancel_sign_in, client_sends,
}
use voxel_browser.Net.Handshake.ClientFrames.{
  accept_info, on_server_info, begin_ticket, on_challenge, on_auth_result, on_manifest, on_data,
  on_join_accept, client_expect, client_frame_in, client_on_frame, told_reason,
}

-- One call of the machine after `start`, with the host as it answers then.
pub data ClientCall : Type 0 where
  arrives : HandshakeClientHost → Frame → ClientCall
  polls : HandshakeClientHost → ClientCall
  cancels : ClientCall

unfoldable pub client_react : HandshakeClientConfig → ClientCall → ClientHandshake → ClientReaction
client_react config (arrives host f) c = client_on_frame config host f c
client_react config (polls host) c = client_poll config host c
client_react config cancels c = cancel_sign_in c

-- The order of the client's statuses: which may follow which, for a step with this `completed` and this
-- `failed`. Any status may become `failed`, and only the last step completes.
unfoldable pub client_may_follow :
    ClientHandshakeStatus → ClientHandshakeStatus → Bool → Bool → Bool
client_may_follow a failed false true = true
client_may_follow connecting awaiting_challenge false false = true
client_may_follow connecting authenticating false false = true
client_may_follow awaiting_challenge signing_in false false = true
client_may_follow awaiting_challenge authenticating false false = true
client_may_follow signing_in authenticating false false = true
client_may_follow authenticating awaiting_asset_manifest false false = true
client_may_follow awaiting_asset_manifest syncing_assets false false = true
client_may_follow awaiting_asset_manifest syncing false false = true
client_may_follow syncing_assets syncing false false = true
client_may_follow syncing joined true false = true
client_may_follow signing_in signing_in false false = true
client_may_follow connecting connecting false false = true
client_may_follow awaiting_challenge awaiting_challenge false false = true
client_may_follow authenticating authenticating false false = true
client_may_follow awaiting_asset_manifest awaiting_asset_manifest false false = true
client_may_follow syncing_assets syncing_assets false false = true
client_may_follow syncing syncing false false = true
client_may_follow joined joined false false = true
client_may_follow failed failed false false = true
client_may_follow a b completed fails = false

-- The step goes from `a` to the status after it along the order.
unfoldable pub ClientFollows : ClientHandshakeStatus → ClientReaction → Type 0
ClientFollows a r = client_may_follow a r.1.status r.0.completed r.0.fails ≡ true

-- What holds of the reply to each message and of a failure holds of a case of `on_frame`.
pub client_expect_lem :
    {A : Type 0} (P : ClientReaction → Type 0) (expected : Bool) (unexpected malformed : List ℕ)
    (decoded : Result A) (handle : A → ClientHandshake → ClientReaction) (c : ClientHandshake)
    → ((text : List ℕ) → P (client_fail text c))
    → ((m : A) → P (handle m c))
    → P (client_expect expected unexpected malformed decoded handle c)
unfolding client_expect
client_expect_lem P true unexpected malformed (ok m) handle c f h = h m
client_expect_lem P true unexpected malformed (err e) handle c f h = f malformed
client_expect_lem P false unexpected malformed decoded handle c f h = f unexpected

client_fail-Follows :
    (a : ClientHandshakeStatus) (c : ClientHandshake) (text : List ℕ)
    → ClientFollows a (client_fail text c)
unfolding ClientFollows client_fail client_may_follow
client_fail-Follows a c text = ground arith

on_server_info-Follows :
    (config : HandshakeClientConfig) (m : S2CServerInfo) (c : ClientHandshake)
    → ClientFollows connecting (on_server_info config m c)
unfolding ClientFollows on_server_info accept_info client_fail client_may_follow
on_server_info-Follows config m c = ground arith

signed_in-Follows :
    (config : HandshakeClientConfig) (p : TokenPoll) (c : ClientHandshake)
    → c.status ≡ signing_in
    → ClientFollows signing_in (signed_in config p c)
      × ClientFollows awaiting_challenge (signed_in config p c)
unfolding ClientFollows signed_in send_auth client_fail client_may_follow
signed_in-Follows config p c e = ground arith

client_poll-Follows :
    (config : HandshakeClientConfig) (host : HandshakeClientHost) (c : ClientHandshake)
    → ClientFollows c.status (client_poll config host c)
unfolding ClientFollows client_poll poll_ticket_of signed_in send_auth client_fail client_may_follow
client_poll-Follows config host c = ground arith

on_challenge-Follows :
    (config : HandshakeClientConfig) (host : HandshakeClientHost) (m : S2CAuthChallenge)
    (c : ClientHandshake)
    → ClientFollows awaiting_challenge (on_challenge config host m c)
unfolding ClientFollows on_challenge begin_ticket client_poll poll_ticket_of signed_in send_auth
    client_fail client_may_follow
on_challenge-Follows config host m c = ground arith

on_auth_result-Follows :
    (host : HandshakeClientHost) (m : S2CAuthResult) (c : ClientHandshake)
    → ClientFollows authenticating (on_auth_result host m c)
unfolding ClientFollows on_auth_result client_fail client_may_follow
on_auth_result-Follows host m c = ground arith

on_manifest-Follows :
    (host : HandshakeClientHost) (m : S2CAssetManifest) (c : ClientHandshake)
    → ClientFollows awaiting_asset_manifest (on_manifest host m c)
unfolding ClientFollows on_manifest client_may_follow
on_manifest-Follows host m c = ground arith

on_data-Follows :
    (host : HandshakeClientHost) (m : S2CAssetData) (c : ClientHandshake)
    → c.status ≡ syncing_assets
    → ClientFollows syncing_assets (on_data host m c)
unfolding ClientFollows on_data client_fail client_may_follow
on_data-Follows host m c e = ground arith

on_join_accept-Follows :
    (m : S2CJoinAccept) (c : ClientHandshake) → ClientFollows syncing (on_join_accept m c)
unfolding ClientFollows on_join_accept client_may_follow
on_join_accept-Follows m c = refl

idle-Follows :
    (a : ClientHandshakeStatus) (c : ClientHandshake)
    → c.status ≡ a
    → ClientFollows a (client_sends [], c)
unfolding ClientFollows client_may_follow
idle-Follows a c e = ground arith

client_frame_in-Follows :
    (config : HandshakeClientConfig) (host : HandshakeClientHost) (f : Frame)
    (a : ClientHandshakeStatus) (c : ClientHandshake)
    → c.status ≡ a
    → ClientFollows a (client_frame_in config host f a c)
unfolding client_frame_in
client_frame_in-Follows config host f connecting c e =
    client_expect_lem (ClientFollows _) _ _ _ _ _ c (client_fail-Follows _ c)
      (λ m. on_server_info-Follows config m c)
client_frame_in-Follows config host f awaiting_challenge c e =
    client_expect_lem (ClientFollows _) _ _ _ _ _ c (client_fail-Follows _ c)
      (λ m. on_challenge-Follows config host m c)
client_frame_in-Follows config host f signing_in c e = client_fail-Follows _ c _
client_frame_in-Follows config host f authenticating c e =
    client_expect_lem (ClientFollows _) _ _ _ _ _ c (client_fail-Follows _ c)
      (λ m. on_auth_result-Follows host m c)
client_frame_in-Follows config host f awaiting_asset_manifest c e =
    client_expect_lem (ClientFollows _) _ _ _ _ _ c (client_fail-Follows _ c)
      (λ m. on_manifest-Follows host m c)
client_frame_in-Follows config host f syncing_assets c e =
    client_expect_lem (ClientFollows _) _ _ _ _ _ c (client_fail-Follows _ c)
      (λ m. on_data-Follows host m c e)
client_frame_in-Follows config host f syncing c e =
    client_expect_lem (ClientFollows _) _ _ _ _ _ c (client_fail-Follows _ c)
      (λ m. on_join_accept-Follows m c)
client_frame_in-Follows config host f joined c e = idle-Follows joined c e
client_frame_in-Follows config host f failed c e = idle-Follows failed c e

client_on_frame-Follows :
    (config : HandshakeClientConfig) (host : HandshakeClientHost) (f : Frame) (c : ClientHandshake)
    → ClientFollows c.status (client_on_frame config host f c)
unfolding client_on_frame
client_on_frame-Follows config host f c = elim (Bool-cases (f.header.type == 7)) [
  | inl e ↦ rw e (client_fail-Follows c.status c (told_reason (decode_disconnect f.payload)))
  | inr e ↦ rw e (client_frame_in-Follows config host f c.status c refl)
]

cancel_sign_in-Follows : (c : ClientHandshake) → ClientFollows c.status (cancel_sign_in c)
unfolding ClientFollows cancel_sign_in client_fail client_may_follow
cancel_sign_in-Follows c = ground arith

-- Every call after the start, in every status and whatever the host answers, takes the machine along the
-- order of the join: it stays, goes one step on, or fails, and the step completes exactly when the machine
-- goes from kSyncing to kJoined.
pub client_react-Follows :
    (config : HandshakeClientConfig) (call : ClientCall) (c : ClientHandshake)
    → ClientFollows c.status (client_react config call c)
unfolding client_react
client_react-Follows config (arrives host f) c = client_on_frame-Follows config host f c
client_react-Follows config (polls host) c = client_poll-Follows config host c
client_react-Follows config cancels c = cancel_sign_in-Follows c
