-- ===== src/Core/VersionReq/Texts.antt =====
-- src/core/version_req.cpp: the texts of errors, as bytes.
use voxel_browser.Prelude.{ℕ, List, [], ◌∷◌}

-- empty version requirement (use "*" for any version)
unfoldable pub empty_requirement : List ℕ
empty_requirement =
    b'e' ∷ b'm' ∷ b'p' ∷ b't' ∷ b'y' ∷ b' ' ∷ b'v' ∷ b'e' ∷ b'r' ∷ b's' ∷ b'i' ∷ b'o' ∷ b'n' ∷ b' '
    ∷ b'r' ∷ b'e' ∷ b'q' ∷ b'u' ∷ b'i' ∷ b'r' ∷ b'e' ∷ b'm' ∷ b'e' ∷ b'n' ∷ b't' ∷ b' ' ∷ b'('
    ∷ b'u' ∷ b's' ∷ b'e' ∷ b' ' ∷ 34 ∷ b'*' ∷ 34 ∷ b' ' ∷ b'f' ∷ b'o' ∷ b'r' ∷ b' ' ∷ b'a' ∷ b'n'
    ∷ b'y' ∷ b' ' ∷ b'v' ∷ b'e' ∷ b'r' ∷ b's' ∷ b'i' ∷ b'o' ∷ b'n' ∷ b')' ∷ []

-- empty comparator in "
unfoldable pub empty_comparator : List ℕ
empty_comparator =
    b'e' ∷ b'm' ∷ b'p' ∷ b't' ∷ b'y' ∷ b' ' ∷ b'c' ∷ b'o' ∷ b'm' ∷ b'p' ∷ b'a' ∷ b'r' ∷ b'a' ∷ b't'
    ∷ b'o' ∷ b'r' ∷ b' ' ∷ b'i' ∷ b'n' ∷ b' ' ∷ 34 ∷ []

-- expected a comparator (>=, >, <=, <, =, ^, ~) in "
unfoldable pub expected_comparator : List ℕ
expected_comparator =
    b'e' ∷ b'x' ∷ b'p' ∷ b'e' ∷ b'c' ∷ b't' ∷ b'e' ∷ b'd' ∷ b' ' ∷ b'a' ∷ b' ' ∷ b'c' ∷ b'o' ∷ b'm'
    ∷ b'p' ∷ b'a' ∷ b'r' ∷ b'a' ∷ b't' ∷ b'o' ∷ b'r' ∷ b' ' ∷ b'(' ∷ b'>' ∷ b'=' ∷ b',' ∷ b' '
    ∷ b'>' ∷ b',' ∷ b' ' ∷ b'<' ∷ b'=' ∷ b',' ∷ b' ' ∷ b'<' ∷ b',' ∷ b' ' ∷ b'=' ∷ b',' ∷ b' '
    ∷ b'^' ∷ b',' ∷ b' ' ∷ b'~' ∷ b')' ∷ b' ' ∷ b'i' ∷ b'n' ∷ b' ' ∷ 34 ∷ []

-- invalid version "
unfoldable pub invalid_version : List ℕ
invalid_version =
    b'i' ∷ b'n' ∷ b'v' ∷ b'a' ∷ b'l' ∷ b'i' ∷ b'd' ∷ b' ' ∷ b'v' ∷ b'e' ∷ b'r' ∷ b's' ∷ b'i' ∷ b'o'
    ∷ b'n' ∷ b' ' ∷ 34 ∷ []

-- " (expected MAJOR[.MINOR[.PATCH]])
unfoldable pub expected_parts : List ℕ
expected_parts =
    34 ∷ b' ' ∷ b'(' ∷ b'e' ∷ b'x' ∷ b'p' ∷ b'e' ∷ b'c' ∷ b't' ∷ b'e' ∷ b'd' ∷ b' ' ∷ b'M' ∷ b'A'
    ∷ b'J' ∷ b'O' ∷ b'R' ∷ b'[' ∷ b'.' ∷ b'M' ∷ b'I' ∷ b'N' ∷ b'O' ∷ b'R' ∷ b'[' ∷ b'.' ∷ b'P'
    ∷ b'A' ∷ b'T' ∷ b'C' ∷ b'H' ∷ b']' ∷ b']' ∷ b')' ∷ []

-- pack '
unfoldable pub pack : List ℕ
pack = b'p' ∷ b'a' ∷ b'c' ∷ b'k' ∷ b' ' ∷ 39 ∷ []

-- ' has no engine_version_req in pack.toml; treating it as "*" (add e.g. engine_version_req = ">=
unfoldable pub no_requirement : List ℕ
no_requirement =
    39 ∷ b' ' ∷ b'h' ∷ b'a' ∷ b's' ∷ b' ' ∷ b'n' ∷ b'o' ∷ b' ' ∷ b'e' ∷ b'n' ∷ b'g' ∷ b'i' ∷ b'n'
    ∷ b'e' ∷ b'_' ∷ b'v' ∷ b'e' ∷ b'r' ∷ b's' ∷ b'i' ∷ b'o' ∷ b'n' ∷ b'_' ∷ b'r' ∷ b'e' ∷ b'q'
    ∷ b' ' ∷ b'i' ∷ b'n' ∷ b' ' ∷ b'p' ∷ b'a' ∷ b'c' ∷ b'k' ∷ b'.' ∷ b't' ∷ b'o' ∷ b'm' ∷ b'l'
    ∷ b';' ∷ b' ' ∷ b't' ∷ b'r' ∷ b'e' ∷ b'a' ∷ b't' ∷ b'i' ∷ b'n' ∷ b'g' ∷ b' ' ∷ b'i' ∷ b't'
    ∷ b' ' ∷ b'a' ∷ b's' ∷ b' ' ∷ 34 ∷ b'*' ∷ 34 ∷ b' ' ∷ b'(' ∷ b'a' ∷ b'd' ∷ b'd' ∷ b' ' ∷ b'e'
    ∷ b'.' ∷ b'g' ∷ b'.' ∷ b' ' ∷ b'e' ∷ b'n' ∷ b'g' ∷ b'i' ∷ b'n' ∷ b'e' ∷ b'_' ∷ b'v' ∷ b'e'
    ∷ b'r' ∷ b's' ∷ b'i' ∷ b'o' ∷ b'n' ∷ b'_' ∷ b'r' ∷ b'e' ∷ b'q' ∷ b' ' ∷ b'=' ∷ b' ' ∷ 34 ∷ b'>'
    ∷ b'=' ∷ []

-- ")
unfoldable pub closing : List ℕ
closing = 34 ∷ b')' ∷ []

-- ': invalid engine_version_req "
unfoldable pub invalid_engine_version_req : List ℕ
invalid_engine_version_req =
    39 ∷ b':' ∷ b' ' ∷ b'i' ∷ b'n' ∷ b'v' ∷ b'a' ∷ b'l' ∷ b'i' ∷ b'd' ∷ b' ' ∷ b'e' ∷ b'n' ∷ b'g'
    ∷ b'i' ∷ b'n' ∷ b'e' ∷ b'_' ∷ b'v' ∷ b'e' ∷ b'r' ∷ b's' ∷ b'i' ∷ b'o' ∷ b'n' ∷ b'_' ∷ b'r'
    ∷ b'e' ∷ b'q' ∷ b' ' ∷ 34 ∷ []

-- " in pack.toml:
unfoldable pub in_pack_toml : List ℕ
in_pack_toml =
    34 ∷ b' ' ∷ b'i' ∷ b'n' ∷ b' ' ∷ b'p' ∷ b'a' ∷ b'c' ∷ b'k' ∷ b'.' ∷ b't' ∷ b'o' ∷ b'm' ∷ b'l'
    ∷ b':' ∷ b' ' ∷ []

-- ' requires engine
unfoldable pub requires_engine : List ℕ
requires_engine =
    39 ∷ b' ' ∷ b'r' ∷ b'e' ∷ b'q' ∷ b'u' ∷ b'i' ∷ b'r' ∷ b'e' ∷ b's' ∷ b' ' ∷ b'e' ∷ b'n' ∷ b'g'
    ∷ b'i' ∷ b'n' ∷ b'e' ∷ b' ' ∷ []

--  (pack.toml engine_version_req); this build is
unfoldable pub this_build_is : List ℕ
this_build_is =
    b' ' ∷ b'(' ∷ b'p' ∷ b'a' ∷ b'c' ∷ b'k' ∷ b'.' ∷ b't' ∷ b'o' ∷ b'm' ∷ b'l' ∷ b' ' ∷ b'e' ∷ b'n'
    ∷ b'g' ∷ b'i' ∷ b'n' ∷ b'e' ∷ b'_' ∷ b'v' ∷ b'e' ∷ b'r' ∷ b's' ∷ b'i' ∷ b'o' ∷ b'n' ∷ b'_'
    ∷ b'r' ∷ b'e' ∷ b'q' ∷ b')' ∷ b';' ∷ b' ' ∷ b't' ∷ b'h' ∷ b'i' ∷ b's' ∷ b' ' ∷ b'b' ∷ b'u'
    ∷ b'i' ∷ b'l' ∷ b'd' ∷ b' ' ∷ b'i' ∷ b's' ∷ b' ' ∷ []
