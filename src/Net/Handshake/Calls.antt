-- ===== src/Net/Handshake/Calls.antt =====
-- src/net/handshake.cpp: the server's machine as the calls that it gets, against the states' order.
use voxel_browser.Prelude.{ℕ, ◌≡◌, refl, Bool, true, false, List, [], arith}
use voxel_browser.Protocol.Result.{Result, ok, err}
use voxel_browser.Protocol.Message.{Frame}
use voxel_browser.Protocol.Handshake.{C2SHello, C2SAuth}
use voxel_browser.Protocol.AssetSync.{C2SAssetManifestRequest, C2SAssetRequest}
use voxel_browser.Protocol.Messages.{Message}
use voxel_browser.Net.Handshake.Server.{
  ServerHandshake, ServerHandshakeState, HandshakeServerConfig, HandshakeServerHost, AuthOutcome,
  Reaction, awaiting_hello, awaiting_auth, verifying_auth, awaiting_asset_manifest_request,
  awaiting_asset_request, streaming_assets, awaiting_ready, playing, closed, protocol_error,
  bad_handshake, fail, on_timeout,
}
use voxel_browser.Net.Handshake.Verdict.{finish_auth, admit, finish_external_auth, poll_auth}
use voxel_browser.Net.Handshake.Assets.{pump_loop, pump_loop_lem, pump_assets}
use voxel_browser.Net.Handshake.Frames.{
  expect, on_hello, challenge, on_auth, on_manifest_request, on_asset_request, on_ready, on_frame,
  frame_in,
}

-- One call of the machine, with the host as it answers then.
pub data Call : Type 0 where
  frame : HandshakeServerHost → Frame → Call
  poll : HandshakeServerHost → Call
  pump : HandshakeServerHost → ℕ → Call
  time_out : Call

unfoldable pub react : HandshakeServerConfig → Call → ServerHandshake → Reaction
react config (frame host f) s = on_frame config host f s
react config (poll host) s = poll_auth host s
react config (pump host max_chunks) s = pump_assets max_chunks host s
react config time_out s = on_timeout s

-- The order of the handshake: which state may follow which, for a step with this `completed` and this
-- `disconnect`. Any state may be dropped to `closed`, and only the last step completes.
unfoldable pub may_follow : ServerHandshakeState → ServerHandshakeState → Bool → Bool → Bool
may_follow a closed false true = true
may_follow awaiting_hello awaiting_auth false false = true
may_follow awaiting_auth verifying_auth false false = true
may_follow awaiting_auth awaiting_asset_manifest_request false false = true
may_follow verifying_auth awaiting_asset_manifest_request false false = true
may_follow awaiting_asset_manifest_request awaiting_asset_request false false = true
may_follow awaiting_asset_request streaming_assets false false = true
may_follow awaiting_asset_request awaiting_ready false false = true
may_follow streaming_assets awaiting_ready false false = true
may_follow awaiting_ready playing true false = true
may_follow awaiting_hello awaiting_hello false false = true
may_follow awaiting_auth awaiting_auth false false = true
may_follow verifying_auth verifying_auth false false = true
may_follow awaiting_asset_manifest_request awaiting_asset_manifest_request false false = true
may_follow awaiting_asset_request awaiting_asset_request false false = true
may_follow streaming_assets streaming_assets false false = true
may_follow awaiting_ready awaiting_ready false false = true
may_follow playing playing false false = true
may_follow closed closed false false = true
may_follow a b completed disconnects = false

-- The step goes from `a` to the state after it along the order.
unfoldable pub Follows : ServerHandshakeState → Reaction → Type 0
Follows a r = may_follow a r.1.state r.0.completed r.0.disconnects ≡ true

finish_auth-Follows :
    (outcome : AuthOutcome) (s : ServerHandshake)
    → Follows awaiting_auth (finish_auth outcome s) × Follows verifying_auth (finish_auth outcome s)
unfolding Follows finish_auth may_follow
finish_auth-Follows outcome s = ground arith

finish_external_auth-Follows :
    (host : HandshakeServerHost) (outcome : AuthOutcome) (s : ServerHandshake)
    → Follows awaiting_auth (finish_external_auth host outcome s)
      × Follows verifying_auth (finish_external_auth host outcome s)
unfolding Follows finish_external_auth admit finish_auth may_follow
finish_external_auth-Follows host outcome s = ground arith

on_hello-Follows :
    (config : HandshakeServerConfig) (host : HandshakeServerHost) (m : C2SHello)
    (s : ServerHandshake)
    → Follows awaiting_hello (on_hello config host m s)
unfolding Follows on_hello challenge fail may_follow
on_hello-Follows config host m s = ground arith

poll_auth-Follows :
    (host : HandshakeServerHost) (s : ServerHandshake) → Follows s.state (poll_auth host s)
unfolding Follows poll_auth may_follow finish_external_auth admit finish_auth
poll_auth-Follows host s = ground arith

on_auth-Follows :
    (config : HandshakeServerConfig) (host : HandshakeServerHost) (m : C2SAuth)
    (s : ServerHandshake)
    → Follows awaiting_auth (on_auth config host m s)
unfolding Follows on_auth poll_auth fail may_follow finish_external_auth admit finish_auth
on_auth-Follows config host m s = ground arith

fail-Follows :
    (a : ServerHandshakeState) (reason : ℕ) (text : List ℕ) (s : ServerHandshake)
    → Follows a (fail reason text s)
unfolding Follows fail may_follow
fail-Follows a reason text s = ground arith

-- What holds of the reply to each message and of a failure holds of a case of `on_frame`.
pub expect_lem :
    {A : Type 0} (P : Reaction → Type 0) (expected : Bool) (unexpected malformed : List ℕ)
    (decoded : Result A) (handle : A → ServerHandshake → Reaction) (s : ServerHandshake)
    → ((reason : ℕ) → (text : List ℕ) → P (fail reason text s))
    → ((m : A) → P (handle m s))
    → P (expect expected unexpected malformed decoded handle s)
unfolding expect
expect_lem P true unexpected malformed (ok m) handle s f h = h m
expect_lem P true unexpected malformed (err e) handle s f h = f protocol_error malformed
expect_lem P false unexpected malformed decoded handle s f h = f bad_handshake unexpected

expect-Follows :
    {A : Type 0} (a : ServerHandshakeState) (expected : Bool) (unexpected malformed : List ℕ)
    (decoded : Result A) (handle : A → ServerHandshake → Reaction) (s : ServerHandshake)
    → ((m : A) → Follows a (handle m s))
    → Follows a (expect expected unexpected malformed decoded handle s)
expect-Follows a expected unexpected malformed decoded handle s =
    expect_lem (Follows a) expected unexpected malformed decoded handle s
      (λ reason text. fail-Follows a reason text s)

on_asset_request-Follows :
    (m : C2SAssetRequest) (s : ServerHandshake)
    → Follows awaiting_asset_request (on_asset_request m s)
unfolding Follows on_asset_request may_follow
on_asset_request-Follows m s = ground arith

on_manifest_request-Follows :
    (host : HandshakeServerHost) (m : C2SAssetManifestRequest) (s : ServerHandshake)
    → Follows awaiting_asset_manifest_request (on_manifest_request host m s)
unfolding Follows on_manifest_request may_follow
on_manifest_request-Follows host m s = refl

on_ready-Follows :
    (host : HandshakeServerHost) (s : ServerHandshake) → Follows awaiting_ready (on_ready host s)
unfolding Follows on_ready may_follow
on_ready-Follows host s = refl

frame_in-Follows :
    (config : HandshakeServerConfig) (host : HandshakeServerHost) (f : Frame)
    (a : ServerHandshakeState) (s : ServerHandshake)
    → Follows a (frame_in config host f a s)
unfolding frame_in
frame_in-Follows config host f awaiting_hello s =
    expect-Follows _ _ _ _ _ _ s (λ m. on_hello-Follows config host m s)
frame_in-Follows config host f awaiting_auth s =
    expect-Follows _ _ _ _ _ _ s (λ m. on_auth-Follows config host m s)
frame_in-Follows config host f verifying_auth s = fail-Follows _ _ _ s
frame_in-Follows config host f awaiting_asset_manifest_request s =
    expect-Follows _ _ _ _ _ _ s (λ m. on_manifest_request-Follows host m s)
frame_in-Follows config host f awaiting_asset_request s =
    expect-Follows _ _ _ _ _ _ s (λ m. on_asset_request-Follows m s)
frame_in-Follows config host f streaming_assets s = fail-Follows _ _ _ s
frame_in-Follows config host f awaiting_ready s =
    expect-Follows _ _ _ _ _ _ s (λ m. on_ready-Follows host s)
frame_in-Follows config host f playing s = fail-Follows _ _ _ s
frame_in-Follows config host f closed s = fail-Follows _ _ _ s

pump_loop-Follows :
    (budget : ℕ) (host : HandshakeServerHost) (queued : List Message) (s : ServerHandshake)
    → s.state ≡ streaming_assets
    → Follows streaming_assets (pump_loop budget host queued s)
unfolding Follows may_follow fail
pump_loop-Follows budget host =
    pump_loop_lem (λ queued s. s.state ≡ streaming_assets) (Follows streaming_assets) host
      (λ queued s e. ground (arith, e)) (λ queued s e. refl) (λ queued s e. refl)
      (λ queued s stream n e. e) budget

on_timeout-Follows : (s : ServerHandshake) → Follows s.state (on_timeout s)
unfolding Follows on_timeout fail may_follow
on_timeout-Follows s = ground arith

pump_assets-Follows :
    (budget : ℕ) (host : HandshakeServerHost) (s : ServerHandshake)
    → Follows s.state (pump_assets budget host s)
unfolding Follows pump_assets may_follow
pump_assets-Follows budget host s = ground (arith, pump_loop-Follows budget host [] s)

-- Every call, in every state and whatever the host answers, takes the machine along the order of the
-- handshake: it stays, goes one step on, or is dropped to `closed` with a disconnect, and the step
-- completes exactly when the machine goes from kAwaitingReady to kPlaying.
pub react-Follows :
    (config : HandshakeServerConfig) (c : Call) (s : ServerHandshake)
    → Follows s.state (react config c s)
unfolding react on_frame
react-Follows config (frame host f) s = frame_in-Follows config host f s.state s
react-Follows config (poll host) s = poll_auth-Follows host s
react-Follows config (pump host max_chunks) s = pump_assets-Follows max_chunks host s
react-Follows config time_out s = on_timeout-Follows s
