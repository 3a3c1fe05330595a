-- ===== src/Net/Handshake/Verdict.antt =====
-- src/net/handshake.cpp: the verdict on a sign-in, with and without external authentication.
use voxel_browser.Prelude.{
  ℕ, true, false, ◌&&◌, not, Option, none, some, List, [], ◌∷◌, if◌then◌else◌,
}
use voxel_browser.Protocol.Handshake.{S2CAuthResult}
use voxel_browser.Protocol.Messages.{auth_result}
use voxel_browser.Net.Handshake.Texts.{authentication_failed, denied_by_pack}
use voxel_browser.Net.Handshake.Server.{
  AuthOutcome, HandshakeServerHost, LoginData, Reaction, ServerHandshake, auth_failed,
  awaiting_asset_manifest_request, closed, disconnect_message, is_empty, sends, verifying_auth,
}

-- The name that the player gets, and the message about the verdict.
abbrev pub resolved_name : AuthOutcome → ServerHandshake → List ℕ
resolved_name outcome s =
    if outcome.accepted && not (is_empty outcome.resolved_name)
    then outcome.resolved_name
    else s.requested_name

abbrev pub verdict : AuthOutcome → ServerHandshake → S2CAuthResult
verdict outcome s = record {
  accepted = outcome.accepted;
  reason = outcome.reason;
  resolved_name = resolved_name outcome s;
}

unfoldable pub finish_auth : AuthOutcome → ServerHandshake → Reaction
finish_auth outcome s =
    let result = auth_result (verdict outcome s) in
    let reason = if is_empty outcome.reason then authentication_failed else outcome.reason in
    if outcome.accepted
    then (
      sends (result ∷ []),
      record s { player_name = resolved_name outcome s; state = awaiting_asset_manifest_request },
    )
    else (
      record (sends (result ∷ disconnect_message auth_failed reason ∷ [])) {
        disconnects = true;
        disconnect_reason = auth_failed;
      },
      record s { state = closed },
    )

-- `{ false, reason, {}, {} }`.
abbrev pub refused : List ℕ → AuthOutcome
refused reason = record { accepted = false; reason = reason; resolved_name = []; login = none }

-- `finish_external_auth` for an accepted outcome with this login.
unfoldable pub admit : HandshakeServerHost → AuthOutcome → LoginData → ServerHandshake → Reaction
admit host outcome verified s =
    let wanted = if is_empty outcome.resolved_name then verified.name else outcome.resolved_name in
    let name = host.resolve_name wanted verified in
    let login = record verified { name = name } in
    if host.join_veto name login
    then finish_auth (record outcome { resolved_name = name }) (record s { login = some login })
    else finish_auth (refused denied_by_pack) s

unfoldable pub finish_external_auth : HandshakeServerHost → AuthOutcome → ServerHandshake → Reaction
finish_external_auth host outcome s =
    if outcome.accepted
    then (elim outcome.login [
      | none ↦ finish_auth (refused authentication_failed) s
      | some verified ↦ admit host outcome verified s
    ])
    else finish_auth outcome s

-- `poll_auth` in kVerifyingAuth, for the ticket that is pending.
abbrev pub poll_pending : HandshakeServerHost → Option ℕ → ServerHandshake → Reaction
poll_pending host none s = (sends [], s)
poll_pending host (some ticket) s = elim (host.poll_ticket ticket) [
  | none ↦ (sends [], s)
  | some outcome ↦ finish_external_auth host outcome (record s { auth_ticket = none })
]

unfoldable pub poll_auth : HandshakeServerHost → ServerHandshake → Reaction
poll_auth host s = elim s.state [
  | verifying_auth ↦ poll_pending host s.auth_ticket s
  | other ↦ (sends [], s)
]
