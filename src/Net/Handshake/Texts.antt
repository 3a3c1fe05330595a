-- ===== src/Net/Handshake/Texts.antt =====
-- src/net/handshake.cpp: the texts of disconnects and failures, as bytes.
use voxel_browser.Prelude.{ℕ, List, [], ◌∷◌}

-- "handshake timed out"
unfoldable pub handshake_timed_out : List ℕ
handshake_timed_out =
    b'h' ∷ b'a' ∷ b'n' ∷ b'd' ∷ b's' ∷ b'h' ∷ b'a' ∷ b'k' ∷ b'e' ∷ b' ' ∷ b't' ∷ b'i' ∷ b'm' ∷ b'e'
    ∷ b'd' ∷ b' ' ∷ b'o' ∷ b'u' ∷ b't' ∷ []

-- "authentication failed"
unfoldable pub authentication_failed : List ℕ
authentication_failed =
    b'a' ∷ b'u' ∷ b't' ∷ b'h' ∷ b'e' ∷ b'n' ∷ b't' ∷ b'i' ∷ b'c' ∷ b'a' ∷ b't' ∷ b'i' ∷ b'o' ∷ b'n'
    ∷ b' ' ∷ b'f' ∷ b'a' ∷ b'i' ∷ b'l' ∷ b'e' ∷ b'd' ∷ []

-- "denied by pack"
unfoldable pub denied_by_pack : List ℕ
denied_by_pack =
    b'd' ∷ b'e' ∷ b'n' ∷ b'i' ∷ b'e' ∷ b'd' ∷ b' ' ∷ b'b' ∷ b'y' ∷ b' ' ∷ b'p' ∷ b'a' ∷ b'c' ∷ b'k'
    ∷ []

-- "requested asset hash not found"
unfoldable pub asset_not_found : List ℕ
asset_not_found =
    b'r' ∷ b'e' ∷ b'q' ∷ b'u' ∷ b'e' ∷ b's' ∷ b't' ∷ b'e' ∷ b'd' ∷ b' ' ∷ b'a' ∷ b's' ∷ b's' ∷ b'e'
    ∷ b't' ∷ b' ' ∷ b'h' ∷ b'a' ∷ b's' ∷ b'h' ∷ b' ' ∷ b'n' ∷ b'o' ∷ b't' ∷ b' ' ∷ b'f' ∷ b'o'
    ∷ b'u' ∷ b'n' ∷ b'd' ∷ []

-- "expected Hello"
unfoldable pub expected_hello : List ℕ
expected_hello =
    b'e' ∷ b'x' ∷ b'p' ∷ b'e' ∷ b'c' ∷ b't' ∷ b'e' ∷ b'd' ∷ b' ' ∷ b'H' ∷ b'e' ∷ b'l' ∷ b'l' ∷ b'o'
    ∷ []

-- "malformed Hello"
unfoldable pub malformed_hello : List ℕ
malformed_hello =
    b'm' ∷ b'a' ∷ b'l' ∷ b'f' ∷ b'o' ∷ b'r' ∷ b'm' ∷ b'e' ∷ b'd' ∷ b' ' ∷ b'H' ∷ b'e' ∷ b'l' ∷ b'l'
    ∷ b'o' ∷ []

-- "engine protocol version mismatch"
unfoldable pub version_mismatch : List ℕ
version_mismatch =
    b'e' ∷ b'n' ∷ b'g' ∷ b'i' ∷ b'n' ∷ b'e' ∷ b' ' ∷ b'p' ∷ b'r' ∷ b'o' ∷ b't' ∷ b'o' ∷ b'c' ∷ b'o'
    ∷ b'l' ∷ b' ' ∷ b'v' ∷ b'e' ∷ b'r' ∷ b's' ∷ b'i' ∷ b'o' ∷ b'n' ∷ b' ' ∷ b'm' ∷ b'i' ∷ b's'
    ∷ b'm' ∷ b'a' ∷ b't' ∷ b'c' ∷ b'h' ∷ []

-- "automation clients are not accepted by this server"
unfoldable pub automation_refused : List ℕ
automation_refused =
    b'a' ∷ b'u' ∷ b't' ∷ b'o' ∷ b'm' ∷ b'a' ∷ b't' ∷ b'i' ∷ b'o' ∷ b'n' ∷ b' ' ∷ b'c' ∷ b'l' ∷ b'i'
    ∷ b'e' ∷ b'n' ∷ b't' ∷ b's' ∷ b' ' ∷ b'a' ∷ b'r' ∷ b'e' ∷ b' ' ∷ b'n' ∷ b'o' ∷ b't' ∷ b' '
    ∷ b'a' ∷ b'c' ∷ b'c' ∷ b'e' ∷ b'p' ∷ b't' ∷ b'e' ∷ b'd' ∷ b' ' ∷ b'b' ∷ b'y' ∷ b' ' ∷ b't'
    ∷ b'h' ∷ b'i' ∷ b's' ∷ b' ' ∷ b's' ∷ b'e' ∷ b'r' ∷ b'v' ∷ b'e' ∷ b'r' ∷ []

-- "server cannot authenticate players right now"
unfoldable pub cannot_authenticate : List ℕ
cannot_authenticate =
    b's' ∷ b'e' ∷ b'r' ∷ b'v' ∷ b'e' ∷ b'r' ∷ b' ' ∷ b'c' ∷ b'a' ∷ b'n' ∷ b'n' ∷ b'o' ∷ b't' ∷ b' '
    ∷ b'a' ∷ b'u' ∷ b't' ∷ b'h' ∷ b'e' ∷ b'n' ∷ b't' ∷ b'i' ∷ b'c' ∷ b'a' ∷ b't' ∷ b'e' ∷ b' '
    ∷ b'p' ∷ b'l' ∷ b'a' ∷ b'y' ∷ b'e' ∷ b'r' ∷ b's' ∷ b' ' ∷ b'r' ∷ b'i' ∷ b'g' ∷ b'h' ∷ b't'
    ∷ b' ' ∷ b'n' ∷ b'o' ∷ b'w' ∷ []

-- "expected Auth"
unfoldable pub expected_auth : List ℕ
expected_auth =
    b'e' ∷ b'x' ∷ b'p' ∷ b'e' ∷ b'c' ∷ b't' ∷ b'e' ∷ b'd' ∷ b' ' ∷ b'A' ∷ b'u' ∷ b't' ∷ b'h' ∷ []

-- "malformed Auth"
unfoldable pub malformed_auth : List ℕ
malformed_auth =
    b'm' ∷ b'a' ∷ b'l' ∷ b'f' ∷ b'o' ∷ b'r' ∷ b'm' ∷ b'e' ∷ b'd' ∷ b' ' ∷ b'A' ∷ b'u' ∷ b't' ∷ b'h'
    ∷ []

-- "server is full"
unfoldable pub server_is_full : List ℕ
server_is_full =
    b's' ∷ b'e' ∷ b'r' ∷ b'v' ∷ b'e' ∷ b'r' ∷ b' ' ∷ b'i' ∷ b's' ∷ b' ' ∷ b'f' ∷ b'u' ∷ b'l' ∷ b'l'
    ∷ []

-- "unexpected message while verifying sign-in"
unfoldable pub unexpected_while_verifying : List ℕ
unexpected_while_verifying =
    b'u' ∷ b'n' ∷ b'e' ∷ b'x' ∷ b'p' ∷ b'e' ∷ b'c' ∷ b't' ∷ b'e' ∷ b'd' ∷ b' ' ∷ b'm' ∷ b'e' ∷ b's'
    ∷ b's' ∷ b'a' ∷ b'g' ∷ b'e' ∷ b' ' ∷ b'w' ∷ b'h' ∷ b'i' ∷ b'l' ∷ b'e' ∷ b' ' ∷ b'v' ∷ b'e'
    ∷ b'r' ∷ b'i' ∷ b'f' ∷ b'y' ∷ b'i' ∷ b'n' ∷ b'g' ∷ b' ' ∷ b's' ∷ b'i' ∷ b'g' ∷ b'n' ∷ 45 ∷ b'i'
    ∷ b'n' ∷ []

-- "expected AssetManifestRequest"
unfoldable pub expected_manifest_request : List ℕ
expected_manifest_request =
    b'e' ∷ b'x' ∷ b'p' ∷ b'e' ∷ b'c' ∷ b't' ∷ b'e' ∷ b'd' ∷ b' ' ∷ b'A' ∷ b's' ∷ b's' ∷ b'e' ∷ b't'
    ∷ b'M' ∷ b'a' ∷ b'n' ∷ b'i' ∷ b'f' ∷ b'e' ∷ b's' ∷ b't' ∷ b'R' ∷ b'e' ∷ b'q' ∷ b'u' ∷ b'e'
    ∷ b's' ∷ b't' ∷ []

-- "malformed AssetManifestRequest"
unfoldable pub malformed_manifest_request : List ℕ
malformed_manifest_request =
    b'm' ∷ b'a' ∷ b'l' ∷ b'f' ∷ b'o' ∷ b'r' ∷ b'm' ∷ b'e' ∷ b'd' ∷ b' ' ∷ b'A' ∷ b's' ∷ b's' ∷ b'e'
    ∷ b't' ∷ b'M' ∷ b'a' ∷ b'n' ∷ b'i' ∷ b'f' ∷ b'e' ∷ b's' ∷ b't' ∷ b'R' ∷ b'e' ∷ b'q' ∷ b'u'
    ∷ b'e' ∷ b's' ∷ b't' ∷ []

-- "expected AssetRequest"
unfoldable pub expected_asset_request : List ℕ
expected_asset_request =
    b'e' ∷ b'x' ∷ b'p' ∷ b'e' ∷ b'c' ∷ b't' ∷ b'e' ∷ b'd' ∷ b' ' ∷ b'A' ∷ b's' ∷ b's' ∷ b'e' ∷ b't'
    ∷ b'R' ∷ b'e' ∷ b'q' ∷ b'u' ∷ b'e' ∷ b's' ∷ b't' ∷ []

-- "malformed AssetRequest"
unfoldable pub malformed_asset_request : List ℕ
malformed_asset_request =
    b'm' ∷ b'a' ∷ b'l' ∷ b'f' ∷ b'o' ∷ b'r' ∷ b'm' ∷ b'e' ∷ b'd' ∷ b' ' ∷ b'A' ∷ b's' ∷ b's' ∷ b'e'
    ∷ b't' ∷ b'R' ∷ b'e' ∷ b'q' ∷ b'u' ∷ b'e' ∷ b's' ∷ b't' ∷ []

-- "unexpected message while streaming assets"
unfoldable pub unexpected_while_streaming : List ℕ
unexpected_while_streaming =
    b'u' ∷ b'n' ∷ b'e' ∷ b'x' ∷ b'p' ∷ b'e' ∷ b'c' ∷ b't' ∷ b'e' ∷ b'd' ∷ b' ' ∷ b'm' ∷ b'e' ∷ b's'
    ∷ b's' ∷ b'a' ∷ b'g' ∷ b'e' ∷ b' ' ∷ b'w' ∷ b'h' ∷ b'i' ∷ b'l' ∷ b'e' ∷ b' ' ∷ b's' ∷ b't'
    ∷ b'r' ∷ b'e' ∷ b'a' ∷ b'm' ∷ b'i' ∷ b'n' ∷ b'g' ∷ b' ' ∷ b'a' ∷ b's' ∷ b's' ∷ b'e' ∷ b't'
    ∷ b's' ∷ []

-- "expected Ready"
unfoldable pub expected_ready : List ℕ
expected_ready =
    b'e' ∷ b'x' ∷ b'p' ∷ b'e' ∷ b'c' ∷ b't' ∷ b'e' ∷ b'd' ∷ b' ' ∷ b'R' ∷ b'e' ∷ b'a' ∷ b'd' ∷ b'y'
    ∷ []

-- "malformed Ready"
unfoldable pub malformed_ready : List ℕ
malformed_ready =
    b'm' ∷ b'a' ∷ b'l' ∷ b'f' ∷ b'o' ∷ b'r' ∷ b'm' ∷ b'e' ∷ b'd' ∷ b' ' ∷ b'R' ∷ b'e' ∷ b'a' ∷ b'd'
    ∷ b'y' ∷ []

-- "unexpected message after handshake"
unfoldable pub unexpected_after_handshake : List ℕ
unexpected_after_handshake =
    b'u' ∷ b'n' ∷ b'e' ∷ b'x' ∷ b'p' ∷ b'e' ∷ b'c' ∷ b't' ∷ b'e' ∷ b'd' ∷ b' ' ∷ b'm' ∷ b'e' ∷ b's'
    ∷ b's' ∷ b'a' ∷ b'g' ∷ b'e' ∷ b' ' ∷ b'a' ∷ b'f' ∷ b't' ∷ b'e' ∷ b'r' ∷ b' ' ∷ b'h' ∷ b'a'
    ∷ b'n' ∷ b'd' ∷ b's' ∷ b'h' ∷ b'a' ∷ b'k' ∷ b'e' ∷ []

-- "sign-in token too large"
unfoldable pub token_too_large : List ℕ
token_too_large =
    b's' ∷ b'i' ∷ b'g' ∷ b'n' ∷ 45 ∷ b'i' ∷ b'n' ∷ b' ' ∷ b't' ∷ b'o' ∷ b'k' ∷ b'e' ∷ b'n' ∷ b' '
    ∷ b't' ∷ b'o' ∷ b'o' ∷ b' ' ∷ b'l' ∷ b'a' ∷ b'r' ∷ b'g' ∷ b'e' ∷ []

-- "sign-in cancelled"
unfoldable pub sign_in_cancelled : List ℕ
sign_in_cancelled =
    b's' ∷ b'i' ∷ b'g' ∷ b'n' ∷ 45 ∷ b'i' ∷ b'n' ∷ b' ' ∷ b'c' ∷ b'a' ∷ b'n' ∷ b'c' ∷ b'e' ∷ b'l'
    ∷ b'l' ∷ b'e' ∷ b'd' ∷ []

-- "disconnected"
unfoldable pub disconnected : List ℕ
disconnected =
    b'd' ∷ b'i' ∷ b's' ∷ b'c' ∷ b'o' ∷ b'n' ∷ b'n' ∷ b'e' ∷ b'c' ∷ b't' ∷ b'e' ∷ b'd' ∷ []

-- "expected ServerInfo"
unfoldable pub expected_server_info : List ℕ
expected_server_info =
    b'e' ∷ b'x' ∷ b'p' ∷ b'e' ∷ b'c' ∷ b't' ∷ b'e' ∷ b'd' ∷ b' ' ∷ b'S' ∷ b'e' ∷ b'r' ∷ b'v' ∷ b'e'
    ∷ b'r' ∷ b'I' ∷ b'n' ∷ b'f' ∷ b'o' ∷ []

-- "malformed ServerInfo"
unfoldable pub malformed_server_info : List ℕ
malformed_server_info =
    b'm' ∷ b'a' ∷ b'l' ∷ b'f' ∷ b'o' ∷ b'r' ∷ b'm' ∷ b'e' ∷ b'd' ∷ b' ' ∷ b'S' ∷ b'e' ∷ b'r' ∷ b'v'
    ∷ b'e' ∷ b'r' ∷ b'I' ∷ b'n' ∷ b'f' ∷ b'o' ∷ []

-- "this server's pack has an invalid engine_version_req ("
unfoldable pub invalid_requirement : List ℕ
invalid_requirement =
    b't' ∷ b'h' ∷ b'i' ∷ b's' ∷ b' ' ∷ b's' ∷ b'e' ∷ b'r' ∷ b'v' ∷ b'e' ∷ b'r' ∷ 39 ∷ b's' ∷ b' '
    ∷ b'p' ∷ b'a' ∷ b'c' ∷ b'k' ∷ b' ' ∷ b'h' ∷ b'a' ∷ b's' ∷ b' ' ∷ b'a' ∷ b'n' ∷ b' ' ∷ b'i'
    ∷ b'n' ∷ b'v' ∷ b'a' ∷ b'l' ∷ b'i' ∷ b'd' ∷ b' ' ∷ b'e' ∷ b'n' ∷ b'g' ∷ b'i' ∷ b'n' ∷ b'e' ∷ 95
    ∷ b'v' ∷ b'e' ∷ b'r' ∷ b's' ∷ b'i' ∷ b'o' ∷ b'n' ∷ 95 ∷ b'r' ∷ b'e' ∷ b'q' ∷ b' ' ∷ 40 ∷ []

-- "this server's pack needs Voxel Browser "
unfoldable pub pack_needs : List ℕ
pack_needs =
    b't' ∷ b'h' ∷ b'i' ∷ b's' ∷ b' ' ∷ b's' ∷ b'e' ∷ b'r' ∷ b'v' ∷ b'e' ∷ b'r' ∷ 39 ∷ b's' ∷ b' '
    ∷ b'p' ∷ b'a' ∷ b'c' ∷ b'k' ∷ b' ' ∷ b'n' ∷ b'e' ∷ b'e' ∷ b'd' ∷ b's' ∷ b' ' ∷ b'V' ∷ b'o'
    ∷ b'x' ∷ b'e' ∷ b'l' ∷ b' ' ∷ b'B' ∷ b'r' ∷ b'o' ∷ b'w' ∷ b's' ∷ b'e' ∷ b'r' ∷ b' ' ∷ []

-- "; you have "
unfoldable pub you_have : List ℕ
you_have = 59 ∷ b' ' ∷ b'y' ∷ b'o' ∷ b'u' ∷ b' ' ∷ b'h' ∷ b'a' ∷ b'v' ∷ b'e' ∷ b' ' ∷ []

-- " -- run `vb update`"
unfoldable pub run_update : List ℕ
run_update =
    b' ' ∷ 45 ∷ 45 ∷ b' ' ∷ b'r' ∷ b'u' ∷ b'n' ∷ b' ' ∷ 96 ∷ b'v' ∷ b'b' ∷ b' ' ∷ b'u' ∷ b'p' ∷ b'd'
    ∷ b'a' ∷ b't' ∷ b'e' ∷ 96 ∷ []

-- "expected AuthChallenge"
unfoldable pub expected_challenge : List ℕ
expected_challenge =
    b'e' ∷ b'x' ∷ b'p' ∷ b'e' ∷ b'c' ∷ b't' ∷ b'e' ∷ b'd' ∷ b' ' ∷ b'A' ∷ b'u' ∷ b't' ∷ b'h' ∷ b'C'
    ∷ b'h' ∷ b'a' ∷ b'l' ∷ b'l' ∷ b'e' ∷ b'n' ∷ b'g' ∷ b'e' ∷ []

-- "malformed AuthChallenge"
unfoldable pub malformed_challenge : List ℕ
malformed_challenge =
    b'm' ∷ b'a' ∷ b'l' ∷ b'f' ∷ b'o' ∷ b'r' ∷ b'm' ∷ b'e' ∷ b'd' ∷ b' ' ∷ b'A' ∷ b'u' ∷ b't' ∷ b'h'
    ∷ b'C' ∷ b'h' ∷ b'a' ∷ b'l' ∷ b'l' ∷ b'e' ∷ b'n' ∷ b'g' ∷ b'e' ∷ []

-- "sign-in is unavailable"
unfoldable pub sign_in_unavailable : List ℕ
sign_in_unavailable =
    b's' ∷ b'i' ∷ b'g' ∷ b'n' ∷ 45 ∷ b'i' ∷ b'n' ∷ b' ' ∷ b'i' ∷ b's' ∷ b' ' ∷ b'u' ∷ b'n' ∷ b'a'
    ∷ b'v' ∷ b'a' ∷ b'i' ∷ b'l' ∷ b'a' ∷ b'b' ∷ b'l' ∷ b'e' ∷ []

-- "sign-in required but cancelled or unavailable"
unfoldable pub sign_in_required : List ℕ
sign_in_required =
    b's' ∷ b'i' ∷ b'g' ∷ b'n' ∷ 45 ∷ b'i' ∷ b'n' ∷ b' ' ∷ b'r' ∷ b'e' ∷ b'q' ∷ b'u' ∷ b'i' ∷ b'r'
    ∷ b'e' ∷ b'd' ∷ b' ' ∷ b'b' ∷ b'u' ∷ b't' ∷ b' ' ∷ b'c' ∷ b'a' ∷ b'n' ∷ b'c' ∷ b'e' ∷ b'l'
    ∷ b'l' ∷ b'e' ∷ b'd' ∷ b' ' ∷ b'o' ∷ b'r' ∷ b' ' ∷ b'u' ∷ b'n' ∷ b'a' ∷ b'v' ∷ b'a' ∷ b'i'
    ∷ b'l' ∷ b'a' ∷ b'b' ∷ b'l' ∷ b'e' ∷ []

-- "unexpected message while signing in"
unfoldable pub unexpected_while_signing_in : List ℕ
unexpected_while_signing_in =
    b'u' ∷ b'n' ∷ b'e' ∷ b'x' ∷ b'p' ∷ b'e' ∷ b'c' ∷ b't' ∷ b'e' ∷ b'd' ∷ b' ' ∷ b'm' ∷ b'e' ∷ b's'
    ∷ b's' ∷ b'a' ∷ b'g' ∷ b'e' ∷ b' ' ∷ b'w' ∷ b'h' ∷ b'i' ∷ b'l' ∷ b'e' ∷ b' ' ∷ b's' ∷ b'i'
    ∷ b'g' ∷ b'n' ∷ b'i' ∷ b'n' ∷ b'g' ∷ b' ' ∷ b'i' ∷ b'n' ∷ []

-- "expected AuthResult"
unfoldable pub expected_auth_result : List ℕ
expected_auth_result =
    b'e' ∷ b'x' ∷ b'p' ∷ b'e' ∷ b'c' ∷ b't' ∷ b'e' ∷ b'd' ∷ b' ' ∷ b'A' ∷ b'u' ∷ b't' ∷ b'h' ∷ b'R'
    ∷ b'e' ∷ b's' ∷ b'u' ∷ b'l' ∷ b't' ∷ []

-- "malformed AuthResult"
unfoldable pub malformed_auth_result : List ℕ
malformed_auth_result =
    b'm' ∷ b'a' ∷ b'l' ∷ b'f' ∷ b'o' ∷ b'r' ∷ b'm' ∷ b'e' ∷ b'd' ∷ b' ' ∷ b'A' ∷ b'u' ∷ b't' ∷ b'h'
    ∷ b'R' ∷ b'e' ∷ b's' ∷ b'u' ∷ b'l' ∷ b't' ∷ []

-- "authentication rejected"
unfoldable pub authentication_rejected : List ℕ
authentication_rejected =
    b'a' ∷ b'u' ∷ b't' ∷ b'h' ∷ b'e' ∷ b'n' ∷ b't' ∷ b'i' ∷ b'c' ∷ b'a' ∷ b't' ∷ b'i' ∷ b'o' ∷ b'n'
    ∷ b' ' ∷ b'r' ∷ b'e' ∷ b'j' ∷ b'e' ∷ b'c' ∷ b't' ∷ b'e' ∷ b'd' ∷ []

-- "expected AssetManifest"
unfoldable pub expected_manifest : List ℕ
expected_manifest =
    b'e' ∷ b'x' ∷ b'p' ∷ b'e' ∷ b'c' ∷ b't' ∷ b'e' ∷ b'd' ∷ b' ' ∷ b'A' ∷ b's' ∷ b's' ∷ b'e' ∷ b't'
    ∷ b'M' ∷ b'a' ∷ b'n' ∷ b'i' ∷ b'f' ∷ b'e' ∷ b's' ∷ b't' ∷ []

-- "malformed AssetManifest"
unfoldable pub malformed_manifest : List ℕ
malformed_manifest =
    b'm' ∷ b'a' ∷ b'l' ∷ b'f' ∷ b'o' ∷ b'r' ∷ b'm' ∷ b'e' ∷ b'd' ∷ b' ' ∷ b'A' ∷ b's' ∷ b's' ∷ b'e'
    ∷ b't' ∷ b'M' ∷ b'a' ∷ b'n' ∷ b'i' ∷ b'f' ∷ b'e' ∷ b's' ∷ b't' ∷ []

-- "expected AssetData"
unfoldable pub expected_asset_data : List ℕ
expected_asset_data =
    b'e' ∷ b'x' ∷ b'p' ∷ b'e' ∷ b'c' ∷ b't' ∷ b'e' ∷ b'd' ∷ b' ' ∷ b'A' ∷ b's' ∷ b's' ∷ b'e' ∷ b't'
    ∷ b'D' ∷ b'a' ∷ b't' ∷ b'a' ∷ []

-- "malformed AssetData"
unfoldable pub malformed_asset_data : List ℕ
malformed_asset_data =
    b'm' ∷ b'a' ∷ b'l' ∷ b'f' ∷ b'o' ∷ b'r' ∷ b'm' ∷ b'e' ∷ b'd' ∷ b' ' ∷ b'A' ∷ b's' ∷ b's' ∷ b'e'
    ∷ b't' ∷ b'D' ∷ b'a' ∷ b't' ∷ b'a' ∷ []

-- "asset transfer failed (hash mismatch or size cap)"
unfoldable pub transfer_failed : List ℕ
transfer_failed =
    b'a' ∷ b's' ∷ b's' ∷ b'e' ∷ b't' ∷ b' ' ∷ b't' ∷ b'r' ∷ b'a' ∷ b'n' ∷ b's' ∷ b'f' ∷ b'e' ∷ b'r'
    ∷ b' ' ∷ b'f' ∷ b'a' ∷ b'i' ∷ b'l' ∷ b'e' ∷ b'd' ∷ b' ' ∷ 40 ∷ b'h' ∷ b'a' ∷ b's' ∷ b'h' ∷ b' '
    ∷ b'm' ∷ b'i' ∷ b's' ∷ b'm' ∷ b'a' ∷ b't' ∷ b'c' ∷ b'h' ∷ b' ' ∷ b'o' ∷ b'r' ∷ b' ' ∷ b's'
    ∷ b'i' ∷ b'z' ∷ b'e' ∷ b' ' ∷ b'c' ∷ b'a' ∷ b'p' ∷ 41 ∷ []

-- "expected JoinAccept"
unfoldable pub expected_join_accept : List ℕ
expected_join_accept =
    b'e' ∷ b'x' ∷ b'p' ∷ b'e' ∷ b'c' ∷ b't' ∷ b'e' ∷ b'd' ∷ b' ' ∷ b'J' ∷ b'o' ∷ b'i' ∷ b'n' ∷ b'A'
    ∷ b'c' ∷ b'c' ∷ b'e' ∷ b'p' ∷ b't' ∷ []

-- "malformed JoinAccept"
unfoldable pub malformed_join_accept : List ℕ
malformed_join_accept =
    b'm' ∷ b'a' ∷ b'l' ∷ b'f' ∷ b'o' ∷ b'r' ∷ b'm' ∷ b'e' ∷ b'd' ∷ b' ' ∷ b'J' ∷ b'o' ∷ b'i' ∷ b'n'
    ∷ b'A' ∷ b'c' ∷ b'c' ∷ b'e' ∷ b'p' ∷ b't' ∷ []
