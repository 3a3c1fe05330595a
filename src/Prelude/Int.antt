-- ===== src/Prelude/Int.antt =====
-- Signed integers over the native numbers, under the library's names, and as machine words in
-- two's complement. `negsuc n` is -(n + 1).
use voxel_browser.Prelude.Tests.{ltb, leb, ◌==◌, if◌then◌else◌}
use Prim.Native.Nat.{ℕ, suc, ◌+◌, ◌-◌, ◌*◌, ◌/◌, ◌%◌, ◌^◌, ◌<◌, ◌≤◌}
use mathlib.Core.Path.{◌≡◌}
use mathlib.Core.Bool.{Bool, true, false, not}
use native.Mathlib.Decide.{ℕ_discrete}
use native.Mathlib.Omega.{arith}

pub data ℤ : Type 0 where
  pos : ℕ → ℤ
  negsuc : ℕ → ℤ

abbrev pub pos_part : ℤ → ℕ
pos_part (pos n) = n
pos_part (negsuc n) = 0

abbrev pub neg_part : ℤ → ℕ
neg_part (pos n) = 0
neg_part (negsuc n) = suc n

-- a - b, as an integer.
abbrev pub sub_ℕ : ℕ → ℕ → ℤ
sub_ℕ a b = if leb b a then pos (a - b) else negsuc (b - a - 1)

infixl 65 ◌+ℤ◌ ◌-ℤ◌
infixl 70 ◌*ℤ◌
infix 50 ◌≤ℤ◌
unfoldable pub ◌+ℤ◌ : ℤ → ℤ → ℤ
a +ℤ b = sub_ℕ (pos_part a + pos_part b) (neg_part a + neg_part b)

unfoldable pub ◌-ℤ◌ : ℤ → ℤ → ℤ
a -ℤ b = sub_ℕ (pos_part a + neg_part b) (neg_part a + pos_part b)

unfoldable pub ◌*ℤ◌ : ℤ → ℤ → ℤ
a *ℤ b =
    sub_ℕ (pos_part a * pos_part b + neg_part a * neg_part b)
      (pos_part a * neg_part b + neg_part a * pos_part b)

abbrev pub ◌≤ℤ◌ : ℤ → ℤ → Type 0
a ≤ℤ b = pos_part a + neg_part b ≤ pos_part b + neg_part a

-- C++ `/` and `%`, which round towards zero; the divisor is not 0.
unfoldable pub trunc_div : ℤ → ℤ → ℤ
trunc_div (pos a) (pos b) = pos (a / b)
trunc_div (pos a) (negsuc b) = sub_ℕ 0 (a / suc b)
trunc_div (negsuc a) (pos b) = sub_ℕ 0 (suc a / b)
trunc_div (negsuc a) (negsuc b) = pos (suc a / suc b)

unfoldable pub trunc_mod : ℤ → ℤ → ℤ
trunc_mod (pos a) (pos b) = pos (a % b)
trunc_mod (pos a) (negsuc b) = pos (a % suc b)
trunc_mod (negsuc a) (pos b) = sub_ℕ 0 (suc a % b)
trunc_mod (negsuc a) (negsuc b) = sub_ℕ 0 (suc a % suc b)

-- `a != b` of two tests.
abbrev pub differ : Bool → Bool → Bool
differ true b = not b
differ false b = b

abbrev pub is_zero : ℤ → Bool
is_zero a = elim a [ pos n ↦ n == 0 | negsuc n ↦ false ]

abbrev pub is_negative : ℤ → Bool
is_negative (pos n) = false
is_negative (negsuc n) = true

-- The unsigned word of 2 ^ w values that a cast of the integer gives.
abbrev pub to_word : ℕ → ℤ → ℕ
to_word modulus (pos n) = n % modulus
to_word modulus (negsuc n) = modulus - 1 - n % modulus

-- The signed integer that a cast of the unsigned word gives.
abbrev pub of_word : ℕ → ℕ → ℤ
of_word modulus x = if ltb x (modulus / 2) then pos x else negsuc (modulus - 1 - x)

-- In the range of the signed type with this modulus.
abbrev pub InRange : ℕ → ℤ → Type 0
InRange modulus (pos n) = n < modulus / 2
InRange modulus (negsuc n) = n < modulus / 2

pub of_word-to_word_32 : (z : ℤ) → InRange (2 ^ 32) z → of_word (2 ^ 32) (to_word (2 ^ 32) z) ≡ z
of_word-to_word_32 (pos n) h = ground arith
of_word-to_word_32 (negsuc n) h = ground arith

pub ℤ-discrete : Discrete ℤ
ℤ-discrete = hlevel ℕ_discrete

pub +ℤ_parts :
    (a b : ℤ)
    → pos_part (a +ℤ b) + neg_part a + neg_part b ≡ neg_part (a +ℤ b) + pos_part a + pos_part b
unfolding ◌+ℤ◌
+ℤ_parts a b = ground arith

pub *ℤ-32_parts :
    (a : ℤ) → pos_part (a *ℤ pos 32) + 32 * neg_part a ≡ neg_part (a *ℤ pos 32) + 32 * pos_part a
unfolding ◌*ℤ◌
*ℤ-32_parts (pos n) = ground arith
*ℤ-32_parts (negsuc n) = ground arith

pub eq_of_parts : (a b : ℤ) → pos_part a + neg_part b ≡ pos_part b + neg_part a → a ≡ b
eq_of_parts a b h = ground arith

pub ruleset int_laws = (arith, +ℤ_parts, *ℤ-32_parts, eq_of_parts)
