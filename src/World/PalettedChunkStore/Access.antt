-- ===== src/World/PalettedChunkStore/Access.antt =====
-- src/world/paletted_chunk_store.cpp: `get`, `set`, `fill` and `uniform_value`.
use voxel_browser.Prelude.{
  ℕ, zero, suc, ◌+◌, ◌-◌, ◌≤◌, ◌<◌, ◌≡◌, ◌≢◌, refl, sym, ap, ◌∙◌, arith, true, false, not, none,
  some, ◌==◌, if◌then◌else◌, length, get_or, Bool-cases, inl, inr, ℕ_discrete,
}
use voxel_browser.World.PalettedChunkStore.{
  PalettedChunkStore, chunk_volume, read_raw, write_raw, palette_index_of, get, set_block, fill,
  uniform_from, uniform_value, words_for,
}
use voxel_browser.World.PalettedChunkStore.Raw.{IsPacked, read_raw-write_raw, write_raw-IsPacked}
use voxel_browser.World.PalettedChunkStore.Palette.{
  IsStore, Indexed, get_lem, palette_index_of-Indexed,
}

-- A block other than the voxel's makes the store packed.
Indexed-IsPacked :
    {s s' : PalettedChunkStore} {block idx : ℕ} (i : ℕ)
    → IsStore s
    → Indexed s block idx s'
    → i < chunk_volume
    → get s i ≢ block
    → IsPacked s'
Indexed-IsPacked {s} {s'} {block} {idx} i h x hi other =
    elim (Bool-cases (s'.bits_per_index == 0)) [
      | inl e ↦
          let here : read_raw s i ≡ idx =
            ground (arith, x.store.fits, x.in_palette, x.same_indices i hi, x.store.indices i hi) in
          absurd (
            other (
              get_lem s i h hi
              ∙ sym (x.same_palette (read_raw s i) (h.indices i hi))
              ∙ ap (λ k. get_or s'.palette k 0) here
              ∙ x.at_index))
      | inr e ↦ record { width = x.store.width e; size = x.store.size }
    ]

written-IsStore :
    (s : PalettedChunkStore) (i idx : ℕ)
    → IsStore s
    → IsPacked s
    → i < chunk_volume
    → idx < length s.palette
    → IsStore (write_raw s i idx)
unfolding write_raw
written-IsStore s i idx h p hi l =
    let q = write_raw-IsPacked s i idx p in
    record {
      nonempty = h.nonempty;
      fits = h.fits;
      size = q.size;
      width = λ e. q.width;
      indices = λ j hj.
          ground (arith, read_raw-write_raw s i idx j p hi (omega (arith, h.fits)), h.indices j hj);
    }

write_raw-palette : (s : PalettedChunkStore) (i v : ℕ) → (write_raw s i v).palette ≡ s.palette
unfolding write_raw
write_raw-palette s i v = refl

get-written :
    (s s' : PalettedChunkStore) (i block idx j : ℕ)
    → IsStore s
    → Indexed s block idx s'
    → IsPacked s'
    → i < chunk_volume
    → j < chunk_volume
    → get (write_raw s' i idx) j ≡ (if i == j then block else get s j)
get-written s s' i block idx j h x p hi hj =
    let written = written-IsStore s' i idx x.store p hi x.in_palette in
    let raw = read_raw-write_raw s' i idx j p hi (omega (arith, x.in_palette, x.store.fits)) in
    let pal = write_raw-palette s' i idx in
    let old = get_lem s j h hj in
    let same = x.same_palette (read_raw s j) (h.indices j hj) in
    get_lem (write_raw s' i idx) j written hj ∙ (elim (Bool-cases (i == j)) [
      | inl e ↦ rw (raw, e, pal) x.at_index
      | inr e ↦ rw (raw, e, x.same_indices j hj, pal) (same ∙ sym old)
    ])

-- In a store with the invariant and fewer than 65536 blocks in its palette: after `set` of a voxel of
-- the chunk, the voxel has the block and every other voxel of the chunk keeps its own.
pub get-set_block :
    (s : PalettedChunkStore) (i block j : ℕ)
    → IsStore s
    → length s.palette < 65536
    → i < chunk_volume
    → j < chunk_volume
    → get (set_block s i block).0 j ≡ (if i == j then block else get s j)
unfolding set_block
get-set_block s i block j h few hi hj = elim (Bool-cases (get s i == block)) [
  | inl e ↦ rw e (ground arith)
  | inr e ↦
      let x = palette_index_of-Indexed block s h few in
      let p = Indexed-IsPacked i h x hi (ground arith) in
      rw e (
        get-written s (palette_index_of block s).1 i block (palette_index_of block s).0 j h x p hi
          hj)
]

-- `set` of a voxel of the chunk, on a store with the invariant and fewer than 65536 blocks in its
-- palette, leaves a store with the invariant, and answers whether the voxel had another block.
pub set_block-IsStore :
    (s : PalettedChunkStore) (i block : ℕ)
    → IsStore s
    → length s.palette < 65536
    → i < chunk_volume
    → IsStore (set_block s i block).0 × ((set_block s i block).1 ≡ not (get s i == block))
unfolding set_block
set_block-IsStore s i block h few hi = elim (Bool-cases (get s i == block)) [
  | inl e ↦ rw e (h, refl)
  | inr e ↦
      let x = palette_index_of-Indexed block s h few in
      let p = Indexed-IsPacked i h x hi (ground arith) in
      rw e (
        written-IsStore (palette_index_of block s).1 i (palette_index_of block s).0 x.store p hi
            x.in_palette,
        refl,
      )
]

-- `fill` makes a store with the invariant, whatever it is given, and every voxel of it has the block.
pub get-fill :
    (s : PalettedChunkStore) (block i : ℕ) → IsStore (fill block s) × (get (fill block s) i ≡ block)
unfolding fill get read_raw words_for
get-fill s block i = (
  record {
    nonempty = omega arith;
    fits = omega arith;
    size = refl;
    width = λ e. ground arith;
    indices = λ i h. omega arith;
  },
  refl,
)

uniform_from-true :
    (n i first : ℕ) (s : PalettedChunkStore) (j : ℕ)
    → uniform_from n i first s ≡ true
    → i ≤ j
    → j < i + n
    → get s j ≡ first
unfolding uniform_from
uniform_from-true zero i first s j e l h = absurd (omega arith)
uniform_from-true (suc n) i first s j e l h = elim (ℕ_discrete i j) [
  | yes q ↦ rw (sym q) (ground arith)
  | no q ↦ uniform_from-true n (i + 1) first s j (ground arith) (omega arith) (omega arith)
]

uniform_from-false :
    (n i first : ℕ) (s : PalettedChunkStore)
    → uniform_from n i first s ≡ false
    → (j : ℕ) × (j < i + n) × (get s j ≢ first)
unfolding uniform_from
uniform_from-false zero i first s e = ground arith
uniform_from-false (suc n) i first s e = elim (Bool-cases (get s i == first)) [
  | inl q ↦
      let (j, l, d) = uniform_from-false n (i + 1) first s (ground arith) in (j, omega arith, d)
  | inr q ↦ (i, omega arith, ground arith)
]

get_unpacked :
    (s : PalettedChunkStore) (i : ℕ)
    → (s.bits_per_index == 0) ≡ true
    → get s i ≡ get_or s.palette 0 0
unfolding get
get_unpacked s i e = rw e refl

-- If `uniform_value` answers a block, every voxel of the chunk has it.
pub uniform_value-some :
    (s : PalettedChunkStore) (block i : ℕ)
    → uniform_value s ≡ some block
    → i < chunk_volume
    → get s i ≡ block
unfolding uniform_value
uniform_value-some s block i e h = elim (Bool-cases (s.bits_per_index == 0)) [
  | inl z ↦ ground (arith, get_unpacked s i z)
  | inr z ↦ elim (Bool-cases (uniform_from (chunk_volume - 1) 1 (get s 0) s)) [
    | inl u ↦ elim (ℕ_discrete i 0) [
      | yes q ↦ ground arith
      | no q ↦
          let all =
            uniform_from-true (chunk_volume - 1) 1 (get s 0) s i u (omega arith) (omega arith) in
          ground arith
    ]
    | inr u ↦ ground arith
  ]
]

-- If `uniform_value` answers none, some voxel of the chunk differs from voxel 0.
pub uniform_value-none :
    (s : PalettedChunkStore)
    → uniform_value s ≡ none
    → (i : ℕ) × (i < chunk_volume) × (get s i ≢ get s 0)
unfolding uniform_value
uniform_value-none s e = elim (Bool-cases (s.bits_per_index == 0)) [
  | inl z ↦ ground arith
  | inr z ↦ elim (Bool-cases (uniform_from (chunk_volume - 1) 1 (get s 0) s)) [
    | inl u ↦ ground arith
    | inr u ↦ uniform_from-false (chunk_volume - 1) 1 (get s 0) s u
  ]
]
