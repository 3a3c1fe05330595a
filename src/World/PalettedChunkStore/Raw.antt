-- ===== src/World/PalettedChunkStore/Raw.antt =====
-- src/world/paletted_chunk_store.cpp: `read_raw`, `write_raw` and `set_width` on packed indices.
use voxel_browser.Prelude.{
  ℕ, zero, suc, ◌+◌, ◌-◌, ◌*◌, ◌/◌, ◌%◌, ◌^◌, ◌<◌, ◌≡◌, ◌≢◌, refl, sym, ap, ◌∙◌, arith, true, false,
  List, [], ◌∷◌, ◌==◌, if◌then◌else◌, length, get_or, set, dec_lt, ℕ_discrete, subst,
}
use voxel_browser.World.PalettedChunkStore.{
  PalettedChunkStore, chunk_volume, words_for, field, set_field, read_raw, write_raw,
}
use voxel_browser.World.PalettedChunkStore.Fields.{
  field-set_field_self, field-set_field_above, field-set_field_below,
}

-- The widths of an index that is packed at all.
pub data Width : ℕ → Type 0 where
  one : Width 1
  two : Width 2
  four : Width 4
  eight : Width 8
  sixteen : Width 16

-- The words hold an index of this width for every voxel.
pub record IsPacked (s : PalettedChunkStore) : Type 0 where
  pub width : Width s.bits_per_index
  pub size : length s.words ≡ words_for s.bits_per_index

pub get_or-set_same {ℓ} :
    {A : Type ℓ} (xs : List A) (i : ℕ) (v d : A) → i < length xs → get_or (set xs i v) i d ≡ v
get_or-set_same [] i v d h = absurd (omega arith)
get_or-set_same (x ∷ xs) zero v d h = refl
get_or-set_same (x ∷ xs) (suc i) v d h = get_or-set_same xs i v d (omega arith)

pub get_or-set_other {ℓ} :
    {A : Type ℓ} (xs : List A) (i j : ℕ) (v d : A) → i ≢ j → get_or (set xs i v) j d ≡ get_or xs j d
get_or-set_other [] i j v d h = refl
get_or-set_other (x ∷ xs) zero zero v d h = absurd (h refl)
get_or-set_other (x ∷ xs) zero (suc j) v d h = refl
get_or-set_other (x ∷ xs) (suc i) zero v d h = refl
get_or-set_other (x ∷ xs) (suc i) (suc j) v d h = get_or-set_other xs i j v d (λ e. h (ap suc e))

pub length-set {ℓ} : {A : Type ℓ} (xs : List A) (i : ℕ) (v : A) → length (set xs i v) ≡ length xs
length-set [] i v = refl
length-set (x ∷ xs) zero v = refl
length-set (x ∷ xs) (suc i) v = ap suc (length-set xs i v)

pub nonzero : {b : ℕ} → Width b → (b == 0) ≡ false
nonzero one = refl
nonzero two = refl
nonzero four = refl
nonzero eight = refl
nonzero sixteen = refl

word_in_range : {b : ℕ} → Width b → (i : ℕ) → i < chunk_volume → i * b / 64 < words_for b
unfolding words_for
word_in_range one i h = omega arith
word_in_range two i h = omega arith
word_in_range four i h = omega arith
word_in_range eight i h = omega arith
word_in_range sixteen i h = omega arith

-- Of two voxels in one word, the later one has its field past the earlier one's.
apart :
    {b : ℕ}
    → Width b
    → (i j : ℕ) → i < j
    → i * b / 64 ≡ j * b / 64
    → i * b % 64 + b + (j * b % 64 - (i * b % 64 + b)) ≡ j * b % 64
apart one i j h e = omega arith
apart two i j h e = omega arith
apart four i j h e = omega arith
apart eight i j h e = omega arith
apart sixteen i j h e = omega arith

-- Reading a field of a word in which the field of another voxel was written.
field-set_field :
    {b : ℕ} (w v i j : ℕ)
    → Width b
    → v < 2 ^ b
    → i * b / 64 ≡ j * b / 64
    → field (set_field w (i * b % 64) b v) (j * b % 64) b
      ≡ (if i == j then v else field w (j * b % 64) b)
field-set_field {b} w v i j width h e = elim (dec_lt i j) [
  | yes l ↦
      let a = apart width i j l e in
      let n : (i == j) ≡ false = ground arith in
      rw n (
        subst (λ t. field (set_field w (i * b % 64) b v) t b ≡ field w t b) a
          (field-set_field_above w (i * b % 64) b v (j * b % 64 - (i * b % 64 + b)) h))
  | no l ↦ elim (dec_lt j i) [
    | yes k ↦
        let a = apart width j i k (sym e) in
        let n : (i == j) ≡ false = ground arith in
        rw n (
          subst (λ t. field (set_field w t b v) (j * b % 64) b ≡ field w (j * b % 64) b) a
            (field-set_field_below w (j * b % 64) b v (i * b % 64 - (j * b % 64 + b)) h))
    | no k ↦
        let q : i ≡ j = omega arith in
        let y : (j == j) ≡ true = ground arith in
        rw (q, y) (field-set_field_self w (j * b % 64) b v h)
  ]
]

pub read_raw-write_raw :
    (s : PalettedChunkStore) (i v j : ℕ)
    → IsPacked s
    → i < chunk_volume
    → v < 2 ^ s.bits_per_index
    → read_raw (write_raw s i v) j ≡ (if i == j then v else read_raw s j)
unfolding read_raw write_raw
read_raw-write_raw s i v j p hi hv =
    let b = s.bits_per_index in
    let here : i * b / 64 < length s.words = omega (arith, word_in_range p.width i hi, p.size) in
    let w = get_or s.words (i * b / 64) 0 in
    rw (nonzero p.width) (elim (ℕ_discrete (i * b / 64) (j * b / 64)) [
      | yes e ↦
          rw (sym e, get_or-set_same s.words (i * b / 64) (set_field w (i * b % 64) b v) 0 here)
            (field-set_field w v i j p.width hv e)
      | no e ↦
          let n : (i == j) ≡ false = ground arith in
          rw
            (
              get_or-set_other s.words (i * b / 64) (j * b / 64) (set_field w (i * b % 64) b v) 0 e,
              n,
            )
            refl
    ])

pub write_raw-IsPacked :
    (s : PalettedChunkStore) (i v : ℕ) → IsPacked s → IsPacked (write_raw s i v)
unfolding write_raw
write_raw-IsPacked s i v p = record { width = p.width; size = length-set s.words _ _ ∙ p.size }
