-- ===== src/World/PalettedChunkStore.antt =====
-- inc/vb/world/paletted_chunk_store.hpp and src/world/paletted_chunk_store.cpp: the block store of one
-- chunk, a palette of block ids with an index into it packed at 0, 1, 2, 4, 8 or 16 bits a voxel.
-- `data_` is a list of 64-bit words; a read past its end, undefined in C++, gives 0 here.
pub mod Fields
pub mod Raw
pub mod Repack
pub mod Palette
pub mod Access
pub mod Compact
use voxel_browser.Prelude.{
  ℕ, zero, suc, ◌+◌, ◌-◌, ◌*◌, ◌/◌, ◌%◌, ◌^◌, Bool, true, false, Option, none, some, List, [], ◌∷◌,
  ◌++◌, ltb, leb, ◌==◌, if◌then◌else◌, length, get_or, set, replicate,
}

abbrev pub chunk_volume : ℕ
chunk_volume = 32 * 32 * 32

pub record PalettedChunkStore : Type 0 where
  pub palette : List ℕ
  pub words : List ℕ
  pub bits_per_index : ℕ

unfoldable pub words_for : ℕ → ℕ
words_for bits = if bits == 0 then 0 else (chunk_volume * bits + 63) / 64

unfoldable pub width_for : ℕ → ℕ
width_for palette_size =
    if leb palette_size 1
    then 0
    else if leb palette_size 2
    then 1
    else if leb palette_size 4
    then 2
    else if leb palette_size 16
    then 4
    else if leb palette_size 256
    then 8
    else 16

-- `(word >> shift) & mask` with `bits` ones in the mask.
abbrev pub field : ℕ → ℕ → ℕ → ℕ
field word shift bits = word / 2 ^ shift % 2 ^ bits

-- `(word & ~mask) | ((value << shift) & mask)` with `bits` ones in the mask, from `shift` on.
abbrev pub set_field : ℕ → ℕ → ℕ → ℕ → ℕ
set_field word shift bits value =
    word - field word shift bits * 2 ^ shift + value % 2 ^ bits * 2 ^ shift

unfoldable pub read_raw : PalettedChunkStore → ℕ → ℕ
read_raw s index =
    let bit = index * s.bits_per_index in
    if s.bits_per_index == 0
    then 0
    else field (get_or s.words (bit / 64) 0) (bit % 64) s.bits_per_index

unfoldable pub write_raw : PalettedChunkStore → ℕ → ℕ → PalettedChunkStore
write_raw s index value =
    let bit = index * s.bits_per_index in
    let word = get_or s.words (bit / 64) 0 in
    record s { words = set s.words (bit / 64) (set_field word (bit % 64) s.bits_per_index value) }

-- The loop of `set_width` and of `compact` over the voxels from `i` on: `new` is all zeros there.
unfoldable pub repack : ℕ → ℕ → (ℕ → ℕ) → PalettedChunkStore → PalettedChunkStore
repack zero i indices new = new
repack (suc voxels) i indices new =
    repack voxels (i + 1) indices (if indices i == 0 then new else write_raw new i (indices i))

unfoldable pub set_width : ℕ → PalettedChunkStore → PalettedChunkStore
set_width new_bits s =
    let fresh : PalettedChunkStore = record s {
      words = replicate (words_for new_bits) 0;
      bits_per_index = new_bits;
    } in
    let repacked = repack chunk_volume 0 (read_raw s) fresh in
    if new_bits == s.bits_per_index then s else if s.bits_per_index == 0 then fresh else repacked

-- The first place of the block in the palette.
unfoldable pub find_index : List ℕ → ℕ → Option ℕ
find_index [] block = none
find_index (p ∷ palette) block =
    if p == block
    then some 0
    else elim (find_index palette block) [ none ↦ none | some i ↦ some (suc i) ]

unfoldable pub palette_index_of : ℕ → PalettedChunkStore → ℕ × PalettedChunkStore
palette_index_of block s =
    let grown : PalettedChunkStore = record s { palette = s.palette ++ (block ∷ []) } in
    let needed = width_for (length grown.palette) in
    let widened = if ltb s.bits_per_index needed then set_width needed grown else grown in
    elim (find_index s.palette block) [
      | some i ↦ (i, s)
      | none ↦ (length widened.palette - 1, widened)
    ]

unfoldable pub get : PalettedChunkStore → ℕ → ℕ
get s index =
    let idx = read_raw s index in
    if s.bits_per_index == 0
    then get_or s.palette 0 0
    else if ltb idx (length s.palette)
    then get_or s.palette idx 0
    else get_or s.palette 0 0

unfoldable pub set_block : PalettedChunkStore → ℕ → ℕ → PalettedChunkStore × Bool
set_block s index block =
    let (idx, s') = palette_index_of block s in
    if get s index == block then (s, false) else (write_raw s' index idx, true)

unfoldable pub fill : ℕ → PalettedChunkStore → PalettedChunkStore
fill block s = record { palette = block ∷ []; words = []; bits_per_index = 0 }

-- The rest of the loop of `uniform_value`, from voxel `i` on.
unfoldable pub uniform_from : ℕ → ℕ → ℕ → PalettedChunkStore → Bool
uniform_from zero i first s = true
uniform_from (suc voxels) i first s =
    let rest = uniform_from voxels (i + 1) first s in if get s i == first then rest else false

-- The answer of `uniform_value` and what it stores through `out`.
unfoldable pub uniform_value : PalettedChunkStore → Option ℕ
uniform_value s =
    let first = get s 0 in
    if s.bits_per_index == 0
    then some (get_or s.palette 0 0)
    else if uniform_from (chunk_volume - 1) 1 first s
    then some first
    else none

-- The loop of `compact` that marks the palette slots in use, from voxel `i` on.
unfoldable pub mark : ℕ → ℕ → PalettedChunkStore → List Bool → List Bool
mark zero i s used = used
mark (suc voxels) i s used = mark voxels (i + 1) s (set used (read_raw s i) true)

abbrev pub all_of : List Bool → Bool
all_of [] = true
all_of (u ∷ used) = if u then all_of used else false

-- The new palette and the new index of each old slot; `n` slots are kept already.
unfoldable pub keep_slots : ℕ → List Bool → List ℕ → List ℕ × List ℕ
keep_slots n [] palette = ([], [])
keep_slots n (u ∷ used) [] = ([], [])
keep_slots n (u ∷ used) (p ∷ palette) =
    let (new_palette, remap) = keep_slots (if u then n + 1 else n) used palette in
    if u then (p ∷ new_palette, n ∷ remap) else (new_palette, 0 ∷ remap)

-- The last part of `compact`.
unfoldable pub rebuild : List Bool → PalettedChunkStore → PalettedChunkStore
rebuild used s =
    let (new_palette, remap) = keep_slots 0 used s.palette in
    let emptied : PalettedChunkStore = record {
      palette = new_palette;
      words = [];
      bits_per_index = 0;
    } in
    let resized = set_width (width_for (length new_palette)) emptied in
    repack chunk_volume 0 (λ i. get_or remap (read_raw s i) 0) resized

unfoldable pub compact : PalettedChunkStore → PalettedChunkStore
compact s =
    let used = mark chunk_volume 0 s (replicate (length s.palette) false) in
    let mixed =
      if all_of used then set_width (width_for (length s.palette)) s else rebuild used s in
    if s.bits_per_index == 0
    then s
    else elim (uniform_value s) [ some uniform ↦ fill uniform s | none ↦ mixed ]
