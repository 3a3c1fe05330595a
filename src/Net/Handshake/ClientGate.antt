-- ===== src/Net/Handshake/ClientGate.antt =====
-- src/net/handshake.cpp: with which servers the client's machine goes on.
use voxel_browser.Prelude.{
  ℕ, ◌==◌, ◌≡◌, refl, ◌∙◌, Bool, true, false, none, some, List, [], arith, ◌⊎◌, inl, inr,
  Option-cases, Bool-cases,
}
use voxel_browser.Core.VersionReq.Parse.{
  Parsed, parsed, refused, parse_req, matches, SemVer, VersionReq,
}
use voxel_browser.Protocol.Handshake.{S2CServerInfo, S2CAuthChallenge, S2CAuthResult, S2CJoinAccept}
use voxel_browser.Protocol.AssetSync.{S2CAssetManifest, S2CAssetData}
use voxel_browser.Net.Handshake.Server.{is_empty}
use voxel_browser.Net.Handshake.Frames.{engine_protocol_version}
use voxel_browser.Net.Handshake.Client.{
  ClientHandshake, ClientHandshakeStatus, HandshakeClientConfig, HandshakeClientHost,
  ClientReaction, connecting, signing_in, syncing_assets, joined, failed, client_fail, send_auth,
  signed_in, poll_ticket_of, client_poll, cancel_sign_in, client_sends,
}
use voxel_browser.Net.Handshake.ClientFrames.{
  requirement_error, accept_info, on_server_info, begin_ticket, on_challenge, on_auth_result,
  on_manifest, on_data,
}

-- The statuses in which no server is accepted.
unfoldable pub is_unmet : ClientHandshakeStatus → Bool
is_unmet connecting = true
is_unmet failed = true
is_unmet other = false

unfoldable pub is_joined : ClientHandshakeStatus → Bool
is_joined joined = true
is_joined other = false

-- The server speaks this protocol, and its pack asks for no engine version, or for one that this is.
abbrev pub Suits : SemVer → S2CServerInfo → Type 0
Suits engine info =
    (info.engine_protocol_version ≡ engine_protocol_version)
    × ((is_empty info.engine_version_req ≡ true)
        ⊎ ((req : VersionReq) × (parse_req info.engine_version_req ≡ parsed req)
            × (matches req engine ≡ true)))

abbrev pub Met : SemVer → ClientHandshake → Type 0
Met engine c = (info : S2CServerInfo) × (c.server_info ≡ some info) × Suits engine info

abbrev pub Accepted : ClientHandshake → Type 0
Accepted c = (is_joined c.status ≡ false) ⊎ ((m : S2CJoinAccept) × (c.join_accept ≡ some m))

abbrev pub Gated : SemVer → ClientHandshake → Type 0
Gated engine c = ((is_unmet c.status ≡ true) ⊎ Met engine c) × Accepted c

-- The step keeps the server's information and does not join.
abbrev pub Keeps : ClientHandshake → ClientReaction → Type 0
Keeps c r = (r.1.server_info ≡ c.server_info) × (is_joined r.1.status ≡ false)

pub Keeps-Gated :
    (engine : SemVer) (c : ClientHandshake) (r : ClientReaction)
    → Met engine c
    → Keeps c r
    → Gated engine r.1
Keeps-Gated engine c r (info, e, s) (k, j) = (inr (info, k ∙ e, s), inl j)

pub met :
    (engine : SemVer) (c : ClientHandshake)
    → is_unmet c.status ≡ false
    → Gated engine c
    → Met engine c
met engine c n (inl u, a) = absurd (cc)
met engine c n (inr m, a) = m

pub accepted :
    (c : ClientHandshake)
    → is_joined c.status ≡ true
    → Accepted c
    → (m : S2CJoinAccept) × (c.join_accept ≡ some m)
accepted c j (inl n) = absurd (cc)
accepted c j (inr m) = m

pub client_fail-Gated :
    (engine : SemVer) (c : ClientHandshake) (text : List ℕ) → Gated engine (client_fail text c).1
unfolding client_fail is_unmet is_joined
client_fail-Gated engine c text = (inl refl, inl refl)

Parsed-cases :
    {A : Type 0} (p : Parsed A)
    → ((a : A) × (p ≡ parsed a)) ⊎ ((text : List ℕ) × (p ≡ refused text))
Parsed-cases (parsed a) = inl (a, refl)
Parsed-cases (refused text) = inr (text, refl)

-- A requirement raises no error only where it is met.
requirement_error-none :
    (text : List ℕ) (engine : SemVer)
    → requirement_error text engine ≡ none
    → (is_empty text ≡ true)
      ⊎ ((req : VersionReq) × (parse_req text ≡ parsed req) × (matches req engine ≡ true))
unfolding requirement_error
requirement_error-none text engine h = elim (Parsed-cases (parse_req text)) [
  | inr (e, p) ↦ inl (ground (arith, h, p))
  | inl (req, p) ↦ elim (Bool-cases (matches req engine)) [
    | inl m ↦ inr (req, p, m)
    | inr m ↦ inl (ground (arith, h, p, m))
  ]
]

pub accept_info-Keeps :
    (config : HandshakeClientConfig) (info : S2CServerInfo) (c : ClientHandshake)
    → ((accept_info config info c).1.server_info ≡ some info)
      × (is_joined (accept_info config info c).1.status ≡ false)
unfolding accept_info is_joined
accept_info-Keeps config info c = ground arith

pub on_server_info-Gated :
    (config : HandshakeClientConfig) (m : S2CServerInfo) (c : ClientHandshake)
    → Gated config.engine (on_server_info config m c).1
unfolding on_server_info
on_server_info-Gated config m c =
    elim (Bool-cases (m.engine_protocol_version == engine_protocol_version)) [
      | inr e ↦ rw e (client_fail-Gated config.engine c _)
      | inl e ↦ elim (Option-cases (requirement_error m.engine_version_req config.engine)) [
        | inr (text, p) ↦ rw (e, p) (client_fail-Gated config.engine c text)
        | inl p ↦
            let (k, j) = accept_info-Keeps config m c in
            rw (e, p)
              (
                inr (
                  m,
                  k,
                  (ground (arith, e), requirement_error-none m.engine_version_req config.engine p),
                ),
                inl j,
              )
      ]
    ]

pub on_challenge-Keeps :
    (config : HandshakeClientConfig) (host : HandshakeClientHost) (m : S2CAuthChallenge)
    (c : ClientHandshake)
    → Keeps c (on_challenge config host m c)
unfolding on_challenge begin_ticket client_poll poll_ticket_of signed_in send_auth client_fail
    is_joined
on_challenge-Keeps config host m c = ground arith

pub on_auth_result-Keeps :
    (host : HandshakeClientHost) (m : S2CAuthResult) (c : ClientHandshake)
    → Keeps c (on_auth_result host m c)
unfolding on_auth_result client_fail is_joined
on_auth_result-Keeps host m c = ground arith

pub on_manifest-Keeps :
    (host : HandshakeClientHost) (m : S2CAssetManifest) (c : ClientHandshake)
    → Keeps c (on_manifest host m c)
unfolding on_manifest is_joined
on_manifest-Keeps host m c = ground arith

pub on_data-Keeps :
    (host : HandshakeClientHost) (m : S2CAssetData) (c : ClientHandshake)
    → c.status ≡ syncing_assets
    → Keeps c (on_data host m c)
unfolding on_data client_fail is_joined
on_data-Keeps host m c e = ground arith

pub client_poll-cases :
    (config : HandshakeClientConfig) (host : HandshakeClientHost) (c : ClientHandshake)
    → ((c.status ≡ signing_in) × Keeps c (client_poll config host c))
      ⊎ (client_poll config host c ≡ (client_sends [], c))
unfolding client_poll poll_ticket_of signed_in send_auth client_fail is_joined
client_poll-cases config host c = ground arith

pub cancel_sign_in-cases :
    (c : ClientHandshake)
    → ((c.status ≡ signing_in) × Keeps c (cancel_sign_in c))
      ⊎ (cancel_sign_in c ≡ (client_sends [], c))
unfolding cancel_sign_in client_fail is_joined
cancel_sign_in-cases c = ground arith
