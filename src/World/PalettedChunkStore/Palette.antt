-- ===== src/World/PalettedChunkStore/Palette.antt =====
-- src/world/paletted_chunk_store.cpp: `palette_index_of` and the invariant of a store.
use voxel_browser.Prelude.{
  ℕ, zero, suc, ◌-◌, ◌^◌, ◌≤◌, ◌<◌, ◌≡◌, refl, ap, ◌∙◌, arith, false, List, [], ◌∷◌, ◌++◌, some,
  ltb, ◌==◌, length, get_or, Bool-cases, Option-cases, inl, inr, length-append,
}
use native.Mathlib.Nat.{pow-le-pow_right}
use voxel_browser.World.PalettedChunkStore.{
  PalettedChunkStore, chunk_volume, words_for, width_for, read_raw, set_width, find_index,
  palette_index_of, get,
}
use voxel_browser.World.PalettedChunkStore.Raw.{
  Width, one, two, four, eight, sixteen, IsPacked, nonzero,
}
use voxel_browser.World.PalettedChunkStore.Repack.{
  read_raw_bound, read_raw-set_width, set_width-IsPacked,
}

-- A store as its operations leave it: every index is one of the palette, and the palette fits the
-- width of the indices.
pub record IsStore (s : PalettedChunkStore) : Type 0 where
  pub nonempty : 0 < length s.palette
  pub fits : length s.palette ≤ 2 ^ s.bits_per_index
  pub size : length s.words ≡ words_for s.bits_per_index
  pub width : (s.bits_per_index == 0) ≡ false → Width s.bits_per_index
  pub indices : (i : ℕ) → i < chunk_volume → read_raw s i < length s.palette

-- What `palette_index_of` makes of `s`, and the index that it answers.
pub record Indexed (s : PalettedChunkStore) (block idx : ℕ) (s' : PalettedChunkStore) : Type 0 where
  pub store : IsStore s'
  pub in_palette : idx < length s'.palette
  pub at_index : get_or s'.palette idx 0 ≡ block
  pub same_indices : (i : ℕ) → i < chunk_volume → read_raw s' i ≡ read_raw s i
  pub same_palette : (k : ℕ) → k < length s.palette → get_or s'.palette k 0 ≡ get_or s.palette k 0

pub get_lem :
    (s : PalettedChunkStore) (i : ℕ)
    → IsStore s
    → i < chunk_volume
    → get s i ≡ get_or s.palette (read_raw s i) 0
unfolding get
get_lem s i h hi = elim (Bool-cases (s.bits_per_index == 0)) [
  | inl e ↦ let z : read_raw s i ≡ 0 = ground (arith, h.indices i hi, h.fits) in rw (e, z) refl
  | inr e ↦ ground (arith, h.indices i hi)
]

find_index-some :
    (palette : List ℕ) (block i : ℕ)
    → find_index palette block ≡ some i
    → (i < length palette) × (get_or palette i 0 ≡ block)
unfolding find_index
find_index-some [] block i e = ground arith
find_index-some (p ∷ palette) block i e = elim (Option-cases (find_index palette block)) [
  | inl n ↦ ground arith
  | inr (k, f) ↦ ground (arith, find_index-some palette block k f)
]

pub width_for-Width : (n : ℕ) → 2 ≤ n → Width (width_for n)
unfolding width_for
width_for-Width n h = ground (arith, one, two, four, eight, sixteen)

pub width_for-fits : (n : ℕ) → n ≤ 65536 → n ≤ 2 ^ width_for n
unfolding width_for
width_for-fits n h = ground arith

get_or-append : (xs ys : List ℕ) (i : ℕ) → i < length xs → get_or (xs ++ ys) i 0 ≡ get_or xs i 0
get_or-append [] ys i h = absurd (omega arith)
get_or-append (x ∷ xs) ys zero h = refl
get_or-append (x ∷ xs) ys (suc i) h = get_or-append xs ys i (omega arith)

get_or-last : (xs : List ℕ) (x : ℕ) → get_or (xs ++ (x ∷ [])) (length xs) 0 ≡ x
get_or-last [] x = refl
get_or-last (y ∷ xs) x = get_or-last xs x

-- A store with one more block in the palette and the same indices.
appended-Indexed :
    (s s' : PalettedChunkStore) (block : ℕ)
    → IsStore s
    → IsPacked s'
    → s'.palette ≡ s.palette ++ (block ∷ [])
    → suc (length s.palette) ≤ 2 ^ s'.bits_per_index
    → ((i : ℕ) → i < chunk_volume → read_raw s' i ≡ read_raw s i)
    → Indexed s block (length s'.palette - 1) s'
appended-Indexed s s' block h p e room same =
    let n : length s'.palette ≡ suc (length s.palette) =
      omega (arith, ap length e, length-append s.palette (block ∷ [])) in
    let last : length s'.palette - 1 ≡ length s.palette = omega arith in
    record {
      store = record {
        nonempty = omega arith;
        fits = omega arith;
        size = p.size;
        width = λ z. p.width;
        indices = λ i hi. omega (arith, same i hi, h.indices i hi);
      };
      in_palette = omega arith;
      at_index = rw (last, e) (get_or-last s.palette block);
      same_indices = same;
      same_palette = λ k hk. rw e (get_or-append s.palette (block ∷ []) k hk);
    }

abbrev grown : ℕ → PalettedChunkStore → PalettedChunkStore
grown block s = record s { palette = s.palette ++ (block ∷ []) }

read_raw-grown :
    (block : ℕ) (s : PalettedChunkStore) (i : ℕ) → read_raw (grown block s) i ≡ read_raw s i
unfolding read_raw
read_raw-grown block s i = refl

widened-Indexed :
    (block needed : ℕ) (s : PalettedChunkStore)
    → IsStore s
    → Width needed
    → suc (length s.palette) ≤ 2 ^ needed
    → s.bits_per_index < needed
    → Indexed s block
        (length (set_width needed (grown block s)).palette - 1)
        (set_width needed (grown block s))
widened-Indexed block needed s h w room wider =
    let g = grown block s in
    let (p, b, e) = set_width-IsPacked needed g w h.size in
    let wide : 2 ^ s.bits_per_index ≤ 2 ^ needed = pow-le-pow_right (omega arith) (omega arith) in
    let fits : (k : ℕ) → k < chunk_volume → read_raw g k < 2 ^ needed =
      λ k l. omega (arith, read_raw_bound g k, wide) in
    appended-Indexed s (set_width needed g) block h p e (rw b room)
      (λ i hi. read_raw-set_width needed g i w fits hi ∙ read_raw-grown block s i)

kept-Indexed :
    (block needed : ℕ) (s : PalettedChunkStore)
    → IsStore s
    → Width needed
    → suc (length s.palette) ≤ 2 ^ needed
    → needed ≤ s.bits_per_index
    → Indexed s block (length (grown block s).palette - 1) (grown block s)
kept-Indexed block needed s h w room wide =
    let n = nonzero w in
    let z : (s.bits_per_index == 0) ≡ false = ground arith in
    let more : 2 ^ needed ≤ 2 ^ s.bits_per_index = pow-le-pow_right (omega arith) wide in
    appended-Indexed s (grown block s) block h (record { width = h.width z; size = h.size }) refl
      (omega arith) (λ i hi. read_raw-grown block s i)

pub palette_index_of-Indexed :
    (block : ℕ) (s : PalettedChunkStore)
    → IsStore s
    → length s.palette < 65536
    → Indexed s block (palette_index_of block s).0 (palette_index_of block s).1
unfolding palette_index_of
palette_index_of-Indexed block s h few = elim (Option-cases (find_index s.palette block)) [
  | inl n ↦
      let len : length (grown block s).palette ≡ suc (length s.palette) =
        omega (arith, length-append s.palette (block ∷ [])) in
      let needed = width_for (suc (length s.palette)) in
      let w = width_for-Width (suc (length s.palette)) (omega (arith, h.nonempty)) in
      let room = width_for-fits (suc (length s.palette)) (omega arith) in
      elim (Bool-cases (ltb s.bits_per_index needed)) [
        | inl e ↦
            rw (n, palette_index_of, len, e)
              (widened-Indexed block needed s h w room (ground arith))
        | inr e ↦
            rw (n, palette_index_of, len, e) (kept-Indexed block needed s h w room (ground arith))
      ]
  | inr (i, e) ↦
      let (l, at) = find_index-some s.palette block i e in
      rw (e, palette_index_of)
        (record {
          store = h;
          in_palette = l;
          at_index = at;
          same_indices = λ i hi. refl;
          same_palette = λ k hk. refl;
        })
]
