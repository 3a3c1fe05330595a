-- ===== src/Net/Handshake/Drops.antt =====
-- src/net/handshake.cpp: how the server's machine tells the client why it is dropped.
use voxel_browser.Prelude.{
  ℕ, ◌≡◌, refl, Option, none, some, List, [], ◌∷◌, ◌++◌, arith, if◌then◌else◌,
}
use voxel_browser.Protocol.Message.{Frame}
use voxel_browser.Protocol.Handshake.{C2SHello, C2SAuth}
use voxel_browser.Protocol.AssetSync.{C2SAssetManifestRequest, C2SAssetRequest}
use voxel_browser.Protocol.Messages.{Message, disconnect, join_accept}
use voxel_browser.Net.Handshake.Texts.{asset_not_found}
use voxel_browser.Net.Handshake.Server.{
  ServerHandshake, ServerHandshakeState, HandshakeServerConfig, HandshakeServerHost, AuthOutcome,
  Reaction, awaiting_hello, awaiting_auth, verifying_auth, awaiting_asset_manifest_request,
  awaiting_asset_request, streaming_assets, awaiting_ready, playing, closed, protocol_error, fail,
  on_timeout,
}
use voxel_browser.Net.Handshake.Verdict.{finish_auth, admit, finish_external_auth, poll_auth}
use voxel_browser.Net.Handshake.Assets.{pump_loop, pump_loop_lem, chunk_message, pump_assets}
use voxel_browser.Net.Handshake.Frames.{
  on_hello, challenge, on_auth, on_manifest_request, on_asset_request, registries, accept_of,
  on_ready, on_frame, frame_in,
}
use voxel_browser.Net.Handshake.Calls.{Call, frame, poll, pump, time_out, react, expect_lem}

-- The reason that a disconnect gives.
unfoldable pub reason_of : Message → Option ℕ
reason_of (disconnect d) = some d.reason
reason_of other = none

-- The reason of the disconnect that stands last.
unfoldable pub announced : List Message → Option ℕ
announced [] = none
announced (m ∷ []) = reason_of m
announced (m ∷ n ∷ ms) = announced (n ∷ ms)

abbrev Announces : Reaction → Type 0
Announces r = announced r.0.send ≡ (if r.0.disconnects then some r.0.disconnect_reason else none)

announced-snoc : (ms : List Message) (m : Message) → announced (ms ++ (m ∷ [])) ≡ reason_of m
unfolding announced
announced-snoc [] m = refl
announced-snoc (a ∷ []) m = refl
announced-snoc (a ∷ b ∷ ms) m = announced-snoc (b ∷ ms) m

fail-Announces : (s : ServerHandshake) (reason : ℕ) (text : List ℕ) → Announces (fail reason text s)
unfolding fail announced reason_of
fail-Announces s reason text = refl

finish_external_auth-Announces :
    (host : HandshakeServerHost) (outcome : AuthOutcome) (s : ServerHandshake)
    → Announces (finish_external_auth host outcome s)
unfolding finish_external_auth admit finish_auth announced reason_of
finish_external_auth-Announces host outcome s = ground arith

poll_auth-Announces :
    (host : HandshakeServerHost) (s : ServerHandshake) → Announces (poll_auth host s)
unfolding poll_auth finish_external_auth admit finish_auth announced reason_of
poll_auth-Announces host s = ground arith

on_hello-Announces :
    (config : HandshakeServerConfig) (host : HandshakeServerHost) (m : C2SHello)
    (s : ServerHandshake)
    → Announces (on_hello config host m s)
unfolding on_hello challenge fail announced reason_of
on_hello-Announces config host m s = ground arith

on_auth-Announces :
    (config : HandshakeServerConfig) (host : HandshakeServerHost) (m : C2SAuth)
    (s : ServerHandshake)
    → Announces (on_auth config host m s)
unfolding on_auth poll_auth fail finish_external_auth admit finish_auth announced reason_of
on_auth-Announces config host m s = ground arith

on_manifest_request-Announces :
    (host : HandshakeServerHost) (m : C2SAssetManifestRequest) (s : ServerHandshake)
    → Announces (on_manifest_request host m s)
unfolding on_manifest_request announced reason_of
on_manifest_request-Announces host m s = refl

on_asset_request-Announces :
    (m : C2SAssetRequest) (s : ServerHandshake) → Announces (on_asset_request m s)
unfolding on_asset_request announced
on_asset_request-Announces m s = refl

on_ready-Announces :
    (host : HandshakeServerHost) (s : ServerHandshake) → Announces (on_ready host s)
unfolding on_ready reason_of
on_ready-Announces host s =
    announced-snoc (registries host) (join_accept (accept_of (host.on_ready s.player_name)))

frame_in-Announces :
    (config : HandshakeServerConfig) (host : HandshakeServerHost) (f : Frame)
    (a : ServerHandshakeState) (s : ServerHandshake)
    → Announces (frame_in config host f a s)
unfolding frame_in
frame_in-Announces config host f awaiting_hello s =
    expect_lem Announces _ _ _ _ _ s (fail-Announces s) (λ m. on_hello-Announces config host m s)
frame_in-Announces config host f awaiting_auth s =
    expect_lem Announces _ _ _ _ _ s (fail-Announces s) (λ m. on_auth-Announces config host m s)
frame_in-Announces config host f verifying_auth s = fail-Announces s _ _
frame_in-Announces config host f awaiting_asset_manifest_request s =
    expect_lem Announces _ _ _ _ _ s (fail-Announces s)
      (λ m. on_manifest_request-Announces host m s)
frame_in-Announces config host f awaiting_asset_request s =
    expect_lem Announces _ _ _ _ _ s (fail-Announces s) (λ m. on_asset_request-Announces m s)
frame_in-Announces config host f streaming_assets s = fail-Announces s _ _
frame_in-Announces config host f awaiting_ready s =
    expect_lem Announces _ _ _ _ _ s (fail-Announces s) (λ m. on_ready-Announces host s)
frame_in-Announces config host f playing s = fail-Announces s _ _
frame_in-Announces config host f closed s = fail-Announces s _ _

pump_loop-Announces :
    (budget : ℕ) (host : HandshakeServerHost) (queued : List Message) (s : ServerHandshake)
    → announced queued ≡ none
    → Announces (pump_loop budget host queued s)
unfolding reason_of
pump_loop-Announces budget host =
    pump_loop_lem (λ queued s. announced queued ≡ none) Announces host (λ queued s e. e)
      (λ queued s e. e) (λ queued s e. fail-Announces s protocol_error asset_not_found)
      (λ queued s stream n e. announced-snoc queued (chunk_message s.asset_stream stream)) budget

on_timeout-Announces : (s : ServerHandshake) → Announces (on_timeout s)
unfolding on_timeout fail announced reason_of
on_timeout-Announces s = ground arith

pump_assets-Announces :
    (max_chunks : ℕ) (host : HandshakeServerHost) (s : ServerHandshake)
    → Announces (pump_assets max_chunks host s)
unfolding pump_assets announced
pump_assets-Announces max_chunks host s =
    ground (arith, pump_loop-Announces max_chunks host [] s refl)

-- Of every call, in every state and whatever the host answers: the last message is a disconnect exactly
-- when the step asks for one, and then it gives the reason of the step.
pub react-announced :
    (config : HandshakeServerConfig) (c : Call) (s : ServerHandshake)
    → announced (react config c s).0.send ≡ (
        if (react config c s).0.disconnects
        then some (react config c s).0.disconnect_reason
        else none)
unfolding react on_frame
react-announced config (frame host f) s = frame_in-Announces config host f s.state s
react-announced config (poll host) s = poll_auth-Announces host s
react-announced config (pump host max_chunks) s = pump_assets-Announces max_chunks host s
react-announced config time_out s = on_timeout-Announces s
