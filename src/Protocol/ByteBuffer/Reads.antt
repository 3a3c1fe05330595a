-- ===== src/Protocol/ByteBuffer/Reads.antt =====
-- inc/vb/protocol/byte_buffer.hpp: each read of a value that the matching write appended.
use voxel_browser.Prelude.{
  ℕ, zero, suc, ◌+◌, ◌*◌, ◌/◌, ◌%◌, ◌^◌, ◌≤◌, ◌<◌, ◌≡◌, refl, ap, subst, ◌∙◌, Bool, true, false,
  List, ◌∷◌, ◌++◌, arith, le→ltb, length, length-append, take-append, drop-append, append_assoc,
}
use native.Mathlib.Nat.{div-add-mod}
use native.Mathlib.Numerals.{towards_suc}
use voxel_browser.Protocol.ByteBuffer.{
  Reader, open_reader, ensure, put_le, le_value, get_le, put_varint_loop, put_varint,
  get_varint_loop, get_varint, get_bytes, put_boolean, get_boolean, put_string, get_string,
  max_decoded_length,
}

-- On an input that begins with `bytes` the read returns `v`, and stands behind them.
abbrev pub Gets {ℓ} : {A : Type ℓ} → (Reader → A × Reader) → List ℕ → A → Type ℓ
Gets get bytes v = (rest : List ℕ) → get (open_reader (bytes ++ rest)) ≡ (v, open_reader rest)

ensure_fits :
    (bs rest : List ℕ)
    → ensure (length bs) (open_reader (bs ++ rest)) ≡ (true, open_reader (bs ++ rest))
unfolding ensure
ensure_fits bs rest =
    rw (le→ltb (length (bs ++ rest)) (length bs) (omega (arith, length-append bs rest)))

get_le_fits :
    (bs rest : List ℕ)
    → get_le (length bs) (open_reader (bs ++ rest)) ≡ (le_value bs, open_reader rest)
unfolding get_le
get_le_fits bs rest = rw (ensure_fits, take-append, drop-append)

get_le_width :
    (n : ℕ) (bs rest : List ℕ)
    → length bs ≡ n
    → get_le n (open_reader (bs ++ rest)) ≡ (le_value bs, open_reader rest)
get_le_width n bs rest e =
    subst (λ k. get_le k (open_reader (bs ++ rest)) ≡ (le_value bs, open_reader rest)) e
      (get_le_fits bs rest)

pub get_bytes-Gets : (bs : List ℕ) → Gets (get_bytes (length bs)) bs bs
unfolding get_bytes
get_bytes-Gets bs rest = rw (ensure_fits, take-append, drop-append)

pub length-put_le : (n v : ℕ) → length (put_le n v) ≡ n
unfolding put_le
length-put_le zero v = refl
length-put_le (suc n) v = ap suc (length-put_le n (v / 256))

le_value-put_le : (n v : ℕ) → v < 256 ^ n → le_value (put_le n v) ≡ v
unfolding put_le le_value
le_value-put_le zero v h = omega arith
le_value-put_le (suc n) v h = omega (arith, le_value-put_le n (v / 256) (omega arith))

-- A fixed-width read gives back the value that was written, for every width.
pub get_le-Gets : (n v : ℕ) → v < 256 ^ n → Gets (get_le n) (put_le n v) v
get_le-Gets n v h rest =
    get_le_width n (put_le n v) rest (length-put_le n v)
    ∙ ap (λ (x : ℕ). (x, open_reader rest)) (le_value-put_le n v h)

pub get_boolean-Gets : (v : Bool) → Gets get_boolean (put_boolean v) v
unfolding get_boolean put_boolean
get_boolean-Gets true rest = rw (get_le-Gets 1 1 (omega arith))
get_boolean-Gets false rest = rw (get_le-Gets 1 0 (omega arith))

-- A group whose top bit is clear ends the loop; one whose top bit is set adds its seven bits.
end_group :
    (more start sum b : ℕ) (tail : List ℕ)
    → sum + b * 2 ^ start < 2 ^ 64
    → b < 128
    → get_varint_loop (suc more) start sum (open_reader (b ∷ tail))
      ≡ (sum + b * 2 ^ start, open_reader tail)
unfolding get_varint_loop ensure le_value
end_group more start sum b tail fits low = ground arith

carry_group :
    (more start sum b : ℕ) (tail : List ℕ)
    → sum + b * 2 ^ start < 2 ^ 64
    → b < 128
    → get_varint_loop (suc more) start sum (open_reader ((b + 128) ∷ tail))
      ≡ get_varint_loop more (start + 7) (sum + b * 2 ^ start) (open_reader tail)
unfolding get_varint_loop ensure le_value
carry_group more start sum b tail fits low = ground arith

-- `n` at bit `start` is its low seven bits there and the others seven bits further.
low_and_high : (start n : ℕ) → n % 128 * 2 ^ start + n / 128 * 2 ^ (start + 7) ≡ n * 2 ^ start
low_and_high start n =
    let further : 2 ^ (start + 7) ≡ 2 ^ start * 128 = simp towards_suc (omega arith) in
    let parts = ap (λ (x : ℕ). 2 ^ start * x) (div-add-mod n 128) in
    omega (arith, parts, ap (λ (x : ℕ). x * (n / 128)) further)

-- The groups that `put_varint_loop` made of `n`, added to `sum` from bit `start` on.
get_varint_loop-Gets :
    (groups start sum n more : ℕ) (tail : List ℕ)
    → sum + n * 2 ^ start < 2 ^ 64
    → n < 128 ^ suc groups
    → groups < more
    → get_varint_loop more start sum (open_reader (put_varint_loop groups n ++ tail))
      ≡ (sum + n * 2 ^ start, open_reader tail)
unfolding put_varint_loop
get_varint_loop-Gets groups start sum n zero tail fits low enough = absurd (omega arith)
get_varint_loop-Gets zero start sum n (suc more) tail fits low enough =
    ground (arith, end_group more start sum n tail)
get_varint_loop-Gets (suc groups) start sum n (suc more) tail fits low enough =
    let high = low_and_high start n in
    ground (
      arith,
      high,
      end_group more start sum n tail,
      carry_group more start sum (n % 128) (put_varint_loop groups (n / 128) ++ tail),
      get_varint_loop-Gets groups (start + 7) (sum + n % 128 * 2 ^ start) (n / 128) more tail
          (omega arith) (omega arith),
    )

-- Every uint64 comes back from its varint.
pub get_varint-Gets : (v : ℕ) → v < 2 ^ 64 → Gets get_varint (put_varint v) v
unfolding get_varint put_varint
get_varint-Gets v h rest =
    get_varint_loop-Gets 9 0 0 v 10 rest (omega arith) (omega arith) (omega arith)
    ∙ ap (λ (x : ℕ). (x, open_reader rest)) (omega arith)

-- A string whose length is within the caller's cap and the global one comes back.
pub get_string-Gets :
    (cap : ℕ) (s : List ℕ)
    → length s ≤ cap
    → length s ≤ max_decoded_length
    → Gets (get_string cap) (put_string s) s
unfolding get_string put_string
get_string-Gets cap s h h' rest = rw (
  append_assoc (put_varint (length s)) s rest,
  get_varint-Gets (length s) (omega arith) (s ++ rest),
  get_bytes-Gets s rest,
  le→ltb cap (length s) h,
  le→ltb max_decoded_length (length s) h',
)
