-- ===== src/World/PalettedChunkStore/Fields.antt =====
-- src/world/paletted_chunk_store.cpp: the fields of a word.
use voxel_browser.Prelude.{
  ℕ, zero, suc, ◌+◌, ◌*◌, ◌/◌, ◌%◌, ◌^◌, ◌<◌, ◌≡◌, refl, sym, ap, ◌∙◌, arith,
}
use native.Mathlib.Nat.{
  div-add-mod, mod-lt, div-div-eq-div-mul, add-mul-div_right, add-mul-mod_self_right, pow-suc,
  mod-eq_of_lt,
}
use voxel_browser.World.PalettedChunkStore.{field, set_field}

low : (k a r : ℕ) → r < k → ((a * k + r) / k ≡ a) × ((a * k + r) % k ≡ r)
low k a r h = (grind arith, grind arith)

pow_add : (a b : ℕ) → 2 ^ (a + b) ≡ 2 ^ a * 2 ^ b
pow_add a zero = grind arith
pow_add a (suc b) =
    let shape : a + suc b ≡ suc (a + b) = omega arith in
    ap (λ n. 2 ^ n) shape
    ∙ pow-suc 2 (a + b)
    ∙ omega (arith, ap (λ (x : ℕ). 2 ^ a * x) (pow-suc 2 b), ap (λ (x : ℕ). x * 2) (pow_add a b))

pub pow_pos : (a : ℕ) → 0 < 2 ^ a
pow_pos zero = omega arith
pow_pos (suc a) = omega (arith, pow-suc 2 a, pow_pos a)

-- A word by its parts above, at and below a field of size `k` at `p`.
word_parts : (w p k : ℕ) → w ≡ (w / p / k * k + w / p % k) * p + w % p
word_parts w p k = omega (arith, div-add-mod w p, ap (λ (x : ℕ). x * p) (div-add-mod (w / p) k))

set_field_parts :
    (w s b v : ℕ)
    → v < 2 ^ b
    → set_field w s b v ≡ (w / 2 ^ s / 2 ^ b * 2 ^ b + v) * 2 ^ s + w % 2 ^ s
set_field_parts w s b v h = rw (mod-eq_of_lt h) (omega (arith, word_parts w (2 ^ s) (2 ^ b)))

pub field-set_field_self : (w s b v : ℕ) → v < 2 ^ b → field (set_field w s b v) s b ≡ v
field-set_field_self w s b v h =
    let q = w / 2 ^ s / 2 ^ b in
    rw
      (
        set_field_parts w s b v h,
        (low (2 ^ s) (q * 2 ^ b + v) (w % 2 ^ s) (mod-lt w (pow_pos s))).0,
      )
      ((low (2 ^ b) q v h).1)

pub field-set_field_above :
    (w s b v e : ℕ) → v < 2 ^ b → field (set_field w s b v) (s + b + e) b ≡ field w (s + b + e) b
field-set_field_above w s b v e h =
    let q = w / 2 ^ s / 2 ^ b in
    let split : (x : ℕ) → x / 2 ^ (s + b + e) ≡ x / 2 ^ s / 2 ^ b / 2 ^ e = λ x.
      rw (pow_add (s + b) e, pow_add s b)
        (sym (div-div-eq-div-mul x (2 ^ s * 2 ^ b) (2 ^ e))
          ∙ ap (λ y. y / 2 ^ e) (sym (div-div-eq-div-mul x (2 ^ s) (2 ^ b)))) in
    rw
      (
        split (set_field w s b v),
        split w,
        set_field_parts w s b v h,
        (low (2 ^ s) (q * 2 ^ b + v) (w % 2 ^ s) (mod-lt w (pow_pos s))).0,
        (low (2 ^ b) q v h).0,
      )
      refl

-- What is above a field does not count in it.
field_low : (x r t b e : ℕ) → field (x * 2 ^ (t + b + e) + r) t b ≡ field r t b
field_low x r t b e =
    let y = x * 2 ^ e in
    let shape : x * (2 ^ t * 2 ^ b * 2 ^ e) + r ≡ r + y * 2 ^ b * 2 ^ t = omega arith in
    rw (pow_add (t + b) e, pow_add t b, shape, add-mul-div_right r (y * 2 ^ b) (pow_pos t))
      (add-mul-mod_self_right (r / 2 ^ t) y (2 ^ b))

pub field-set_field_below :
    (w t b v e : ℕ) → v < 2 ^ b → field (set_field w (t + b + e) b v) t b ≡ field w t b
field-set_field_below w t b v e h =
    let s = t + b + e in
    let q = w / 2 ^ s / 2 ^ b in
    rw (set_field_parts w s b v h, field_low (q * 2 ^ b + v) (w % 2 ^ s) t b e)
      (sym (
        ap (λ x. field x t b) (word_parts w (2 ^ s) (2 ^ b))
        ∙ field_low (q * 2 ^ b + w / 2 ^ s % 2 ^ b) (w % 2 ^ s) t b e))
