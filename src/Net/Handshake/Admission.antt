-- ===== src/Net/Handshake/Admission.antt =====
-- src/net/handshake.cpp: whom the server's machine lets in under external authentication.
use voxel_browser.Prelude.{ℕ, ◌≡◌, List, [], ◌∷◌, ◌⊎◌}
use voxel_browser.Protocol.Handshake.{C2SAuth, decode_auth}
use voxel_browser.Protocol.Result.{ok}
use voxel_browser.Net.Handshake.Server.{ServerHandshake, HandshakeServerConfig, LoginData}
use voxel_browser.Net.Handshake.Calls.{Call, frame, poll, pump, time_out, react}
use voxel_browser.Net.Handshake.SignIn.{Starts, Admits}

-- This call starts the verification of a sign-in that it brings, under the nonce and with the ticket.
abbrev pub CallStarts : Call → List ℕ → ℕ → Type 0
CallStarts (frame host f) nonce ticket =
    (m : C2SAuth) × (decode_auth f.payload ≡ ok m) × Starts host m nonce ticket
CallStarts (poll host) nonce ticket = ⊥
CallStarts (pump host max_chunks) nonce ticket = ⊥
CallStarts time_out nonce ticket = ⊥

-- What the host of a call admits for this ticket; a pump and a timeout poll none.
abbrev pub CallAdmits : ℕ → Call → LoginData → Type 0
CallAdmits ticket (frame host f) l = Admits host ticket l
CallAdmits ticket (poll host) l = Admits host ticket l
CallAdmits ticket (pump host max_chunks) l = ⊥
CallAdmits ticket time_out l = ⊥

-- The machine after these calls.
unfoldable pub run : HandshakeServerConfig → List Call → ServerHandshake → ServerHandshake
run config [] s = s
run config (c ∷ calls) s = run config calls (react config c s).1

-- Some call of the list admits the login for this ticket.
abbrev pub SomeCallAdmits : ℕ → List Call → LoginData → Type 0
SomeCallAdmits ticket [] l = ⊥
SomeCallAdmits ticket (c ∷ calls) l = CallAdmits ticket c l ⊎ SomeCallAdmits ticket calls l

-- Some call starts the verification of a sign-in under the nonce, and it or a later one admits the login for
-- the ticket that it got.
abbrev pub SignedIn : List ℕ → List Call → LoginData → Type 0
SignedIn nonce [] l = ⊥
SignedIn nonce (c ∷ calls) l =
    ((ticket : ℕ) × CallStarts c nonce ticket × SomeCallAdmits ticket (c ∷ calls) l)
    ⊎ SignedIn nonce calls l
