-- ===== src/Protocol/ByteBuffer.antt =====
-- inc/vb/protocol/byte_buffer.hpp: the writer and the reader of little-endian wire data.
-- A byte is a number below 256. What a writer appends to `out_` is the list that the functions
-- below return. A reader is `data_` from `pos_` on, with `err_`; kNone is `none`.
pub mod Reads
pub mod Signed
use voxel_browser.Prelude.{
  ℕ, zero, suc, ◌+◌, ◌*◌, ◌/◌, ◌%◌, ◌^◌, Bool, true, false, ◌&&◌, ◌||◌, not, Option, none, some,
  List, [], ◌∷◌, ◌++◌, ltb, ◌==◌, if◌then◌else◌, length, take, drop,
}

pub data ProtocolError : Type 0 where
  short_buffer overlong_varint trailing_bytes bad_enum length_exceeded : ProtocolError
  version_mismatch malformed : ProtocolError

abbrev pub max_decoded_length : ℕ
max_decoded_length = 64 * 1024 * 1024

-- `put_le` of a T of n bytes.
unfoldable pub put_le : ℕ → ℕ → List ℕ
put_le zero v = []
put_le (suc n) v = (v % 256) ∷ put_le n (v / 256)

-- The loop of `varint` with fuel; a uint64 takes at most ten rounds.
-- `v & 0x7F` is `v % 128`, and `| 0x80` adds a bit that is clear.
unfoldable pub put_varint_loop : ℕ → ℕ → List ℕ
put_varint_loop zero v = v % 256 ∷ []
put_varint_loop (suc fuel) v =
    let rest = put_varint_loop fuel (v / 128) in
    if ltb v 128 then v % 256 ∷ [] else (v % 128 + 128) ∷ rest

unfoldable pub put_varint : ℕ → List ℕ
put_varint v = put_varint_loop 9 v

unfoldable pub put_boolean : Bool → List ℕ
put_boolean v = put_le 1 (if v then 1 else 0)

unfoldable pub put_string : List ℕ → List ℕ
put_string s = put_varint (length s) ++ s

pub record Reader : Type 0 where
  pub rest : List ℕ
  pub error : Option ProtocolError

abbrev pub open_reader : List ℕ → Reader
open_reader bytes = record { rest = bytes; error = none }

abbrev pub failed : Reader → Bool
failed r = elim r.error [ none ↦ false | some e ↦ true ]

abbrev pub remaining : Reader → ℕ
remaining r = length r.rest

abbrev pub at_end : Reader → Bool
at_end r = elim r.rest [ [] ↦ true | b ∷ bs ↦ false ]

unfoldable pub fail : ProtocolError → Reader → Reader
fail e r = if failed r then r else record r { error = some e }

unfoldable pub expect_consumed : Reader → Reader
expect_consumed r =
    if not (failed r) && not (at_end r) then record r { error = some trailing_bytes } else r

-- The reader after `ensure(n)`, and its answer.
unfoldable pub ensure : ℕ → Reader → Bool × Reader
ensure n r =
    if failed r
    then (false, r)
    else if ltb (remaining r) n
    then (false, fail short_buffer r)
    else (true, r)

unfoldable pub le_value : List ℕ → ℕ
le_value [] = 0
le_value (b ∷ bs) = b + 256 * le_value bs

-- `pos_ += n`.
abbrev pub advance : ℕ → Reader → Reader
advance n r = record r { rest = drop n r.rest }

-- `get_le` of a T of n bytes.
unfoldable pub get_le : ℕ → Reader → ℕ × Reader
get_le n r =
    let (fits, r') = ensure n r in
    if fits then (le_value (take n r'.rest), advance n r') else (0, r')

abbrev pub get_u8 : Reader → ℕ × Reader
get_u8 = get_le 1

unfoldable pub get_boolean : Reader → Bool × Reader
get_boolean r = let (v, r') = get_u8 r in (not (v == 0), if ltb 1 v then fail malformed r' else r')

-- `result |= ...` sets bits that are clear, so it is a sum; the shift drops what passes bit 63.
abbrev pub add_group : ℕ → ℕ → ℕ → ℕ
add_group result byte shift = result + byte % 128 * 2 ^ shift % 2 ^ 64

-- The rounds of the loop of `varint` that are left, and its variables: shifts 0, 7, .., 63.
unfoldable pub get_varint_loop : ℕ → ℕ → ℕ → Reader → ℕ × Reader
get_varint_loop zero shift result r = (0, fail overlong_varint r)
get_varint_loop (suc rounds) shift result r =
    let (fits, r') = ensure 1 r in
    let byte = le_value (take 1 r'.rest) in
    let result' = add_group result byte shift in
    let more = get_varint_loop rounds (shift + 7) result' (advance 1 r') in
    if fits then (if ltb byte 128 then (result', advance 1 r') else more) else (0, r')

unfoldable pub get_varint : Reader → ℕ × Reader
get_varint = get_varint_loop 10 0 0

unfoldable pub get_bytes : ℕ → Reader → List ℕ × Reader
get_bytes n r =
    let (fits, r') = ensure n r in if fits then (take n r'.rest, advance n r') else ([], r')

-- The caller's cap is `max_len`; the default argument is `max_decoded_length`.
unfoldable pub get_string : ℕ → Reader → List ℕ × Reader
get_string max_len r =
    let (len, r') = get_varint r in
    let (b, r'') = get_bytes len r' in
    if failed r'
    then ([], r')
    else if ltb max_len len || ltb max_decoded_length len
    then ([], fail length_exceeded r')
    else if failed r''
    then ([], r'')
    else (b, r'')
