-- ===== src/Net/Handshake/SignIn.antt =====
-- src/net/handshake.cpp: the verdict on a sign-in under external authentication, and the frames around it.
use voxel_browser.Prelude.{
  ℕ, ◌≡◌, refl, Bool, true, false, Option, none, some, List, arith, ◌⊎◌, subst, inl, inr,
  if◌then◌else◌, leb, Option-cases, Bool-cases,
}
use voxel_browser.Protocol.Message.{Frame}
use voxel_browser.Protocol.Handshake.{C2SHello, C2SAuth, decode_auth}
use voxel_browser.Protocol.Result.{Result, ok, err}
use voxel_browser.Protocol.AssetSync.{C2SAssetRequest}
use voxel_browser.Net.Handshake.Server.{
  ServerHandshake, ServerHandshakeState, HandshakeServerConfig, HandshakeServerHost, AuthOutcome,
  LoginData, awaiting_hello, awaiting_auth, verifying_auth, awaiting_asset_manifest_request,
  awaiting_asset_request, streaming_assets, awaiting_ready, playing, closed, external, fail,
  is_empty, Reaction, protocol_error, bad_handshake,
}
use voxel_browser.Net.Handshake.Verdict.{
  finish_auth, admit, finish_external_auth, poll_auth, poll_pending,
}
use voxel_browser.Net.Handshake.Frames.{
  on_hello, challenge, on_auth, begin_auth, on_manifest_request, on_asset_request, on_ready,
  frame_in, expect,
}
use voxel_browser.Net.Handshake.Calls.{expect_lem}

-- What holds of a failure and of the reply to the message decoded holds of a case of `on_frame`.
expect_decoded_lem :
    {A : Type 0} (P : Reaction → Type 0) (expected : Bool) (unexpected malformed : List ℕ)
    (decoded : Result A) (handle : A → ServerHandshake → Reaction) (s : ServerHandshake)
    → ((reason : ℕ) → (text : List ℕ) → P (fail reason text s))
    → ((m : A) → decoded ≡ ok m → P (handle m s))
    → P (expect expected unexpected malformed decoded handle s)
unfolding expect
expect_decoded_lem P true unexpected malformed (ok m) handle s f h = h m refl
expect_decoded_lem P true unexpected malformed (err e) handle s f h = f protocol_error malformed
expect_decoded_lem P false unexpected malformed decoded handle s f h = f bad_handshake unexpected

-- The states past the sign-in.
unfoldable pub is_admitted : ServerHandshakeState → Bool
is_admitted awaiting_hello = false
is_admitted awaiting_auth = false
is_admitted verifying_auth = false
is_admitted closed = false
is_admitted other = true

-- The login under the name that the host gives it.
unfoldable pub named : HandshakeServerHost → AuthOutcome → LoginData → LoginData
named host outcome verified =
    let wanted = if is_empty outcome.resolved_name then verified.name else outcome.resolved_name in
    record verified { name = host.resolve_name wanted verified }

-- The host started the verification of this sign-in's token under the nonce, with this ticket.
abbrev pub Starts : HandshakeServerHost → C2SAuth → List ℕ → ℕ → Type 0
Starts host m nonce ticket =
    (begin_authenticate : List ℕ → List ℕ → Option ℕ) × (host.begin_authenticate
      ≡ some begin_authenticate)
    × (begin_authenticate m.token nonce ≡ some ticket)

-- The host polled this ticket to an accepting outcome with a login, which is `l` but for the name, the
-- name is the one that the host resolved, and the host has no veto.
abbrev pub Admits : HandshakeServerHost → ℕ → LoginData → Type 0
Admits host ticket l =
    (outcome : AuthOutcome) × (verified : LoginData) × (host.poll_ticket ticket ≡ some outcome)
    × (outcome.accepted ≡ true)
    × (outcome.login ≡ some verified)
    × (l ≡ named host outcome verified)
    × (host.join_veto l.name l ≡ true)

-- The machine plays for the login `l`, under its name, or, where that is empty, the one asked for.
abbrev pub PlaysAs : LoginData → ServerHandshake → Type 0
PlaysAs l s =
    (s.login ≡ some l) × (s.player_name ≡ (if is_empty l.name then s.requested_name else l.name))

-- Of a ticket that the machine waits for, `B` holds with the machine's nonce.
abbrev pub Pending : (List ℕ → ℕ → Type 0) → ServerHandshake → Type 0
Pending B s =
    (ticket : ℕ) → s.state ≡ verifying_auth → s.auth_ticket ≡ some ticket → B s.auth_nonce ticket

-- The machine plays for a login of which `Q` holds with the machine's nonce.
abbrev pub PlaysBy : (List ℕ → LoginData → Type 0) → ServerHandshake → Type 0
PlaysBy Q s = (l : LoginData) × PlaysAs l s × Q s.auth_nonce l

-- The player is not admitted yet, or as somebody of whom `Q` holds.
abbrev pub AdmittedBy :
    (List ℕ → ℕ → Type 0) → (List ℕ → LoginData → Type 0) → ServerHandshake → Type 0
AdmittedBy B Q s =
    ((is_admitted s.state ≡ false) × Pending B s) ⊎ ((is_admitted s.state ≡ true) × PlaysBy Q s)

-- Nothing is awaited in the states before and after the sign-in.
closed-AdmittedBy :
    (B : List ℕ → ℕ → Type 0) (Q : List ℕ → LoginData → Type 0) (s : ServerHandshake)
    → s.state ≡ closed
    → AdmittedBy B Q s
unfolding is_admitted
closed-AdmittedBy B Q s e = inl (ground (arith, e), λ ticket v t. absurd (ground (arith, e, v)))

awaiting_auth-AdmittedBy :
    (B : List ℕ → ℕ → Type 0) (Q : List ℕ → LoginData → Type 0) (s : ServerHandshake)
    → s.state ≡ awaiting_auth
    → AdmittedBy B Q s
unfolding is_admitted
awaiting_auth-AdmittedBy B Q s e =
    inl (ground (arith, e), λ ticket v t. absurd (ground (arith, e, v)))

module _ (B : List ℕ → ℕ → Type 0) (Q : List ℕ → LoginData → Type 0) where
  admit-Admits :
      (host : HandshakeServerHost) (outcome : AuthOutcome) (verified : LoginData)
      (s : ServerHandshake)
      → outcome.accepted ≡ true
      → (host.join_veto (named host outcome verified).name (named host outcome verified) ≡ true
          → Q s.auth_nonce (named host outcome verified))
      → AdmittedBy B Q (admit host outcome verified s).1
  unfolding admit named finish_auth is_admitted
  admit-Admits host outcome verified s a q =
      let l = named host outcome verified in
      elim (Bool-cases (host.join_veto l.name l)) [
        | inl t ↦ inr (
          ground (arith, t, a),
          (l, (ground (arith, t, a), ground (arith, t, a)), rw (t, a) (q t)),
        )
        | inr t ↦ closed-AdmittedBy B Q (admit host outcome verified s).1 (ground (arith, t))
      ]

  finish_external_auth-Admits :
      (host : HandshakeServerHost) (ticket : ℕ) (outcome : AuthOutcome) (s : ServerHandshake)
      → host.poll_ticket ticket ≡ some outcome
      → ((l : LoginData) → Admits host ticket l → Q s.auth_nonce l)
      → AdmittedBy B Q (finish_external_auth host outcome s).1
  unfolding finish_external_auth finish_auth
  finish_external_auth-Admits host ticket outcome s p q = elim (Bool-cases outcome.accepted) [
    | inr a ↦ closed-AdmittedBy B Q (finish_external_auth host outcome s).1 (ground (arith, a))
    | inl a ↦ elim (Option-cases outcome.login) [
      | inl n ↦ closed-AdmittedBy B Q (finish_external_auth host outcome s).1 (ground (arith, a, n))
      | inr (verified, e) ↦
          rw (a, e)
            (admit-Admits host outcome verified s a
              (λ veto. q (named host outcome verified) (outcome, verified, p, a, e, refl, veto)))
    ]
  ]

  -- An admitted player stays whom it is.
  pub stays : (s : ServerHandshake) → is_admitted s.state ≡ true → AdmittedBy B Q s → PlaysBy Q s
  stays s a (inl n) = absurd (ground (arith, a, n.0))
  stays s a (inr (o, p)) = p

  on_hello-cases :
      (config : HandshakeServerConfig) (host : HandshakeServerHost) (m : C2SHello)
      (s : ServerHandshake)
      → ((on_hello config host m s).1.state ≡ closed)
        ⊎ ((on_hello config host m s).1.state ≡ awaiting_auth)
  unfolding on_hello challenge fail
  on_hello-cases config host m s = ground arith

  on_hello-Admits :
      (config : HandshakeServerConfig) (host : HandshakeServerHost) (m : C2SHello)
      (s : ServerHandshake)
      → s.state ≡ awaiting_hello
      → AdmittedBy B Q (on_hello config host m s).1
  on_hello-Admits config host m s e = elim (on_hello-cases config host m s) [
    | inl c ↦ closed-AdmittedBy B Q (on_hello config host m s).1 c
    | inr c ↦ awaiting_auth-AdmittedBy B Q (on_hello config host m s).1 c
  ]

  pub fail-Admits :
      (s : ServerHandshake) (reason : ℕ) (text : List ℕ) → AdmittedBy B Q (fail reason text s).1
  unfolding fail
  fail-Admits s reason text = closed-AdmittedBy B Q (fail reason text s).1 refl

  on_asset_request-Admits :
      (m : C2SAssetRequest) (s : ServerHandshake)
      → PlaysBy Q s
      → AdmittedBy B Q (on_asset_request m s).1
  unfolding on_asset_request is_admitted
  on_asset_request-Admits m s p = inr (ground arith, p)

  module _ (host : HandshakeServerHost)
      (q : (nonce : List ℕ) (ticket : ℕ) (l : LoginData)
        → B nonce ticket
        → Admits host ticket l
        → Q nonce l) where
    pub poll_pending-Admits :
        (ticket : Option ℕ) (s : ServerHandshake)
        → s.auth_ticket ≡ ticket
        → s.state ≡ verifying_auth
        → Pending B s
        → AdmittedBy B Q (poll_pending host ticket s).1
    unfolding is_admitted
    poll_pending-Admits none s t e b = inl (ground (arith, e), b)
    poll_pending-Admits (some ticket) s t e b = elim (Option-cases (host.poll_ticket ticket)) [
      | inl n ↦ rw (n, poll_pending) (inl (ground (arith, e), b))
      | inr (outcome, p) ↦
          rw (p, poll_pending)
            (finish_external_auth-Admits host ticket outcome (record s { auth_ticket = none }) p
              (λ l. q s.auth_nonce ticket l (b ticket e t)))
    ]

    -- Under external authentication a sign-in only starts the verification.
    begin_auth-Admits :
        (begin : Option (List ℕ → List ℕ → Option ℕ)) (m : C2SAuth) (s : ServerHandshake)
        → host.begin_authenticate ≡ begin
        → ((nonce : List ℕ) → (ticket : ℕ) → Starts host m nonce ticket → B nonce ticket)
        → AdmittedBy B Q (begin_auth host begin m.token s).1
    unfolding poll_auth
    begin_auth-Admits none m s h b = fail-Admits s _ _
    begin_auth-Admits (some begin) m s h b = elim (Option-cases (begin m.token s.auth_nonce)) [
      | inl n ↦ rw (n, begin_auth) (fail-Admits (record s { auth_ticket = none }) _ _)
      | inr (ticket, e) ↦
          rw (e, begin_auth)
            (poll_pending-Admits (some ticket)
              (record s { auth_ticket = some ticket; state = verifying_auth }) refl refl
              (λ t v w.
                let same : ticket ≡ t = ground (arith, w) in
                subst (λ x. B s.auth_nonce x) same (b s.auth_nonce ticket (begin, h, e))))
    ]

    on_auth-Admits :
        (config : HandshakeServerConfig) (m : C2SAuth) (s : ServerHandshake)
        → config.auth_mode ≡ external
        → ((nonce : List ℕ) → (ticket : ℕ) → Starts host m nonce ticket → B nonce ticket)
        → AdmittedBy B Q (on_auth config host m s).1
    unfolding on_auth
    on_auth-Admits config m s x b =
        elim (Bool-cases (leb config.max_players host.current_player_count)) [
          | inl full ↦ rw full (fail-Admits s _ _)
          | inr free ↦
              rw (free, x)
                (begin_auth-Admits host.begin_authenticate m
                  (record s { requested_name = m.player_name }) refl b)
        ]

    pub frame_in-Admits :
        (config : HandshakeServerConfig) (f : Frame) (a : ServerHandshakeState)
        (s : ServerHandshake)
        → config.auth_mode ≡ external
        → ((m : C2SAuth)
            → (nonce : List ℕ) → (ticket : ℕ) → decode_auth f.payload ≡ ok m
            → Starts host m nonce ticket
            → B nonce ticket)
        → s.state ≡ a
        → AdmittedBy B Q s
        → AdmittedBy B Q (frame_in config host f a s).1
    unfolding frame_in is_admitted on_manifest_request on_ready
    frame_in-Admits config f awaiting_hello s x b e h =
        expect_lem (λ r. AdmittedBy B Q r.1) _ _ _ _ _ s (fail-Admits s)
          (λ m. on_hello-Admits config host m s e)
    frame_in-Admits config f awaiting_auth s x b e h =
        expect_decoded_lem (λ r. AdmittedBy B Q r.1) _ _ _ _ _ s (fail-Admits s)
          (λ m d. on_auth-Admits config m s x (λ nonce ticket. b m nonce ticket d))
    frame_in-Admits config f verifying_auth s x b e h = fail-Admits s _ _
    frame_in-Admits config f awaiting_asset_manifest_request s x b e h =
        expect_lem (λ r. AdmittedBy B Q r.1) _ _ _ _ _ s (fail-Admits s)
          (λ m. inr (refl, stays s (ground (arith, e)) h))
    frame_in-Admits config f awaiting_asset_request s x b e h =
        expect_lem (λ r. AdmittedBy B Q r.1) _ _ _ _ _ s (fail-Admits s)
          (λ m. on_asset_request-Admits m s (stays s (ground (arith, e)) h))
    frame_in-Admits config f streaming_assets s x b e h = fail-Admits s _ _
    frame_in-Admits config f awaiting_ready s x b e h =
        expect_lem (λ r. AdmittedBy B Q r.1) _ _ _ _ _ s (fail-Admits s)
          (λ m. inr (refl, stays s (ground (arith, e)) h))
    frame_in-Admits config f playing s x b e h = fail-Admits s _ _
    frame_in-Admits config f closed s x b e h = fail-Admits s _ _
