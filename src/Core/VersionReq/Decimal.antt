-- ===== src/Core/VersionReq/Decimal.antt =====
-- What src/core/version_req.cpp takes from <charconv> and <string>: an int in decimal, read and printed.
use voxel_browser.Prelude.{
  ℕ, zero, suc, ◌+◌, ◌-◌, ◌*◌, ◌/◌, ◌%◌, Bool, ◌&&◌, Option, none, some, List, [], ◌∷◌, leb, ltb,
  ◌==◌, if◌then◌else◌,
}
use voxel_browser.Prelude.Int.{ℤ, pos, negsuc, sub_ℕ}

abbrev pub is_digit : ℕ → Bool
is_digit c = leb b'0' c && leb c b'9'

-- The number of these digits after those of `acc`; `none`: something else is among them.
unfoldable pub read_digits : ℕ → List ℕ → Option ℕ
read_digits acc [] = some acc
read_digits acc (c ∷ cs) =
    let rest = read_digits (acc * 10 + (c - b'0')) cs in if is_digit c then rest else none

unfoldable pub read_number : List ℕ → Option ℕ
read_number [] = none
read_number (c ∷ cs) = read_digits 0 (c ∷ cs)

-- `std::from_chars` of an int that takes the whole of a text too short to overflow: a minus sign may
-- stand first.
unfoldable pub from_chars : List ℕ → Option ℤ
from_chars [] = none
from_chars (c ∷ cs) =
    if c == b'-'
    then (elim (read_number cs) [ none ↦ none | some n ↦ some (sub_ℕ 0 n) ])
    else elim (read_number (c ∷ cs)) [ none ↦ none | some n ↦ some (pos n) ]

-- The digits of the number before those of `acc`; the fuel is enough when it is above the number.
unfoldable pub print_digits : ℕ → ℕ → List ℕ → List ℕ
print_digits zero n acc = acc
print_digits (suc fuel) n acc =
    let digits = (b'0' + n % 10) ∷ acc in
    let rest = print_digits fuel (n / 10) digits in if ltb n 10 then digits else rest

-- `std::to_string` of an int.
unfoldable pub print_int : ℤ → List ℕ
print_int (pos n) = print_digits (suc n) n []
print_int (negsuc n) = b'-' ∷ print_digits (suc (suc n)) (suc n) []
