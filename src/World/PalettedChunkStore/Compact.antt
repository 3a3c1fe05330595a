-- ===== src/World/PalettedChunkStore/Compact.antt =====
-- src/world/paletted_chunk_store.cpp: `compact`.
use voxel_browser.Prelude.{
  ℕ, zero, suc, ◌+◌, ◌^◌, ◌≤◌, ◌<◌, ◌≡◌, ◌≢◌, refl, sym, ap, ◌∙◌, arith, Bool, true, false, List,
  [], ◌∷◌, none, ◌==◌, if◌then◌else◌, length, get_or, set, replicate, Bool-cases, Option-cases, inl,
  inr, ℕ_discrete,
}
use voxel_browser.World.PalettedChunkStore.{
  PalettedChunkStore, chunk_volume, read_raw, repack, set_width, width_for, get, uniform_value,
  words_for, mark, all_of, keep_slots, rebuild, compact,
}
use voxel_browser.World.PalettedChunkStore.Raw.{
  Width, IsPacked, one, two, four, eight, sixteen, get_or-set_same, length-set,
}
use voxel_browser.World.PalettedChunkStore.Repack.{
  read_raw-set_width, set_width-IsPacked, repack-IsPacked, repack-bits, repack-palette,
  read_raw-repack, length-replicate,
}
use voxel_browser.World.PalettedChunkStore.Palette.{
  IsStore, get_lem, width_for-Width, width_for-fits,
}
use voxel_browser.World.PalettedChunkStore.Access.{get-fill, uniform_value-some, uniform_value-none}

-- `s'` is a store with the voxels of `s`.
pub record SameVoxels (s s' : PalettedChunkStore) : Type 0 where
  pub store : IsStore s'
  pub voxels : (i : ℕ) → i < chunk_volume → get s' i ≡ get s i

-- A packed store shows the voxels of `s` if its indices name the same blocks in its palette.
packed-SameVoxels :
    (s s' : PalettedChunkStore)
    → IsStore s
    → IsPacked s'
    → length s'.palette ≤ 2 ^ s'.bits_per_index
    → ((i : ℕ)
        → i < chunk_volume
        → (read_raw s' i < length s'.palette)
          × (get_or s'.palette (read_raw s' i) 0 ≡ get_or s.palette (read_raw s i) 0))
    → SameVoxels s s'
packed-SameVoxels s s' h p fits same =
    let l = (same 0 (omega arith)).0 in
    let store : IsStore s' = record {
      nonempty = omega arith;
      fits = fits;
      size = p.size;
      width = λ e. p.width;
      indices = λ i hi. (same i hi).0;
    } in
    record {
      store = store;
      voxels = λ i hi. get_lem s' i store hi ∙ (same i hi).1 ∙ sym (get_lem s i h hi);
    }

-- A voxel's index is marked, and nothing is unmarked.
mark-kept :
    (n i : ℕ) (s : PalettedChunkStore) (used : List Bool) (k : ℕ)
    → get_or used k false ≡ true
    → get_or (mark n i s used) k false ≡ true
unfolding mark
mark-kept zero i s used k e = e
mark-kept (suc n) i s used k e =
    mark-kept n (i + 1) s (set used (read_raw s i) true) k (set-kept used (read_raw s i) k e)
  where
    set-kept :
        (us : List Bool) (a b : ℕ)
        → get_or us b false ≡ true
        → get_or (set us a true) b false ≡ true
    set-kept [] a b e = e
    set-kept (u ∷ us) zero zero e = refl
    set-kept (u ∷ us) zero (suc b) e = e
    set-kept (u ∷ us) (suc a) zero e = e
    set-kept (u ∷ us) (suc a) (suc b) e = set-kept us a b e

length-mark :
    (n i : ℕ) (s : PalettedChunkStore) (used : List Bool) → length (mark n i s used) ≡ length used
unfolding mark
length-mark zero i s used = refl
length-mark (suc n) i s used =
    length-mark n (i + 1) s (set used (read_raw s i) true) ∙ length-set used (read_raw s i) true

mark-used :
    (n i : ℕ) (s : PalettedChunkStore) (used : List Bool) (j : ℕ)
    → i ≤ j
    → j < i + n
    → read_raw s j < length used
    → get_or (mark n i s used) (read_raw s j) false ≡ true
unfolding mark
mark-used zero i s used j l h r = absurd (omega arith)
mark-used (suc n) i s used j l h r = elim (ℕ_discrete i j) [
  | yes e ↦ rw e (
      mark-kept n (j + 1) s (set used (read_raw s j) true) (read_raw s j)
        (get_or-set_same used (read_raw s j) true false r))
  | no e ↦
      mark-used n (i + 1) s (set used (read_raw s i) true) j (omega arith) (omega arith)
        (omega (arith, length-set used (read_raw s i) true))
]

-- Where a slot in use goes.
keep_slots-used :
    (n : ℕ) (used : List Bool) (palette : List ℕ) (k : ℕ)
    → k < length palette
    → get_or used k false ≡ true
    → (m : ℕ) × (get_or (keep_slots n used palette).1 k 0 ≡ n + m)
      × (m < length (keep_slots n used palette).0)
      × (get_or (keep_slots n used palette).0 m 0 ≡ get_or palette k 0)
unfolding keep_slots
keep_slots-used n [] palette k h e = absurd (ground arith)
keep_slots-used n (u ∷ used) [] k h e = absurd (omega arith)
keep_slots-used n (true ∷ used) (p ∷ palette) zero h e = (0, omega arith, omega arith, refl)
keep_slots-used n (false ∷ used) (p ∷ palette) zero h e = absurd (ground arith)
keep_slots-used n (true ∷ used) (p ∷ palette) (suc k) h e =
    let (m, a, b, c) = keep_slots-used (n + 1) used palette k (omega arith) e in
    (suc m, omega arith, omega arith, c)
keep_slots-used n (false ∷ used) (p ∷ palette) (suc k) h e =
    keep_slots-used n used palette k (omega arith) e

length-keep_slots :
    (n : ℕ) (used : List Bool) (palette : List ℕ)
    → length (keep_slots n used palette).0 ≤ length palette
unfolding keep_slots
length-keep_slots n [] palette = omega arith
length-keep_slots n (u ∷ used) [] = omega arith
length-keep_slots n (true ∷ used) (p ∷ palette) =
    omega (arith, length-keep_slots (n + 1) used palette)
length-keep_slots n (false ∷ used) (p ∷ palette) = omega (arith, length-keep_slots n used palette)

palette_bound :
    (s : PalettedChunkStore)
    → IsStore s
    → (s.bits_per_index == 0) ≡ false
    → length s.palette ≤ 65536
palette_bound s h e = omega (arith, h.fits, width_bound (h.width e))
  where
    width_bound : {b : ℕ} → Width b → 2 ^ b ≤ 65536
    width_bound one = omega arith
    width_bound two = omega arith
    width_bound four = omega arith
    width_bound eight = omega arith
    width_bound sixteen = omega arith

-- Two blocks at two places make a list of at least two.
two_places :
    (xs : List ℕ) (a b : ℕ)
    → a < length xs
    → b < length xs
    → get_or xs a 0 ≢ get_or xs b 0
    → 2 ≤ length xs
two_places xs a b ha hb d = elim (ℕ_discrete a b) [
  | yes e ↦ absurd (d (ap (λ k. get_or xs k 0) e))
  | no e ↦ omega arith
]

emptied-size : length {A = ℕ} [] ≡ words_for 0
unfolding words_for
emptied-size = refl

abbrev emptied : List ℕ → PalettedChunkStore
emptied palette = record { palette = palette; words = []; bits_per_index = 0 }

read_raw-emptied : (palette : List ℕ) (k : ℕ) → read_raw (emptied palette) k ≡ 0
unfolding read_raw
read_raw-emptied palette k = refl

-- Every slot that a voxel names is marked.
AllUsed : List Bool → PalettedChunkStore → Type 0
AllUsed used s = (i : ℕ) → i < chunk_volume → get_or used (read_raw s i) false ≡ true

rebuild-SameVoxels :
    (used : List Bool) (s : PalettedChunkStore)
    → IsStore s
    → AllUsed used s
    → length s.palette ≤ 65536
    → 2 ≤ length (keep_slots 0 used s.palette).0
    → SameVoxels s (rebuild used s)
unfolding rebuild AllUsed
rebuild-SameVoxels used s h marked few many =
    let new = (keep_slots 0 used s.palette).0 in
    let remap = (keep_slots 0 used s.palette).1 in
    let bits = width_for (length new) in
    let w = width_for-Width (length new) many in
    let room : length new ≤ 2 ^ bits =
      width_for-fits (length new) (omega (arith, length-keep_slots 0 used s.palette)) in
    let resized = set_width bits (emptied new) in
    let (p, b, e) = set_width-IsPacked bits (emptied new) w emptied-size in
    let indices : ℕ → ℕ = λ i. get_or remap (read_raw s i) 0 in
    let slot = λ (i : ℕ) (hi : i < chunk_volume).
      keep_slots-used 0 used s.palette (read_raw s i) (h.indices i hi) (marked i hi) in
    let fits : (k : ℕ) → k < chunk_volume → indices k < 2 ^ resized.bits_per_index =
      λ k l. let (m, x, y, z) = slot k l in rw b (omega arith) in
    let blank : (k : ℕ) → 0 ≤ k → k < chunk_volume → read_raw resized k ≡ 0 = λ k l l'.
      read_raw-set_width bits (emptied new) k w
        (λ j hj. omega (arith, read_raw-emptied new j, room)) l'
      ∙ read_raw-emptied new k in
    let built = repack chunk_volume 0 indices resized in
    let pal : built.palette ≡ new = repack-palette chunk_volume 0 indices resized ∙ e in
    let wide : built.bits_per_index ≡ bits = repack-bits chunk_volume 0 indices resized ∙ b in
    packed-SameVoxels s built h (repack-IsPacked chunk_volume 0 indices resized p)
      (rw (pal, wide) room)
      (λ i hi.
        let (m, x, y, z) = slot i hi in
        let raw : read_raw built i ≡ m =
          read_raw-repack chunk_volume 0 indices resized i p (omega arith) fits blank hi
          ∙ ground arith in
        rw (raw, pal) (y, z))

-- A narrower width, or a wider one, for a palette that fits it.
resized-SameVoxels :
    (s : PalettedChunkStore)
    → IsStore s
    → length s.palette ≤ 65536
    → 2 ≤ length s.palette
    → SameVoxels s (set_width (width_for (length s.palette)) s)
resized-SameVoxels s h few many =
    let bits = width_for (length s.palette) in
    let w = width_for-Width (length s.palette) many in
    let room = width_for-fits (length s.palette) few in
    let (p, b, e) = set_width-IsPacked bits s w h.size in
    packed-SameVoxels s (set_width bits s) h p (rw (e, b) room) (λ i hi.
      let raw : read_raw (set_width bits s) i ≡ read_raw s i =
        read_raw-set_width bits s i w (λ k hk. omega (arith, h.indices k hk)) hi in
      rw (raw, e) (h.indices i hi, refl))

-- `compact` of a packed store whose voxels differ.
mixed-SameVoxels :
    (s : PalettedChunkStore)
    → IsStore s
    → (s.bits_per_index == 0) ≡ false
    → uniform_value s ≡ none
    → let used = mark chunk_volume 0 s (replicate (length s.palette) false) in
      SameVoxels s
        (if all_of used then set_width (width_for (length s.palette)) s else rebuild used s)
unfolding AllUsed
mixed-SameVoxels s h e u =
    let unused : List Bool = replicate (length s.palette) false in
    let used = mark chunk_volume 0 s unused in
    let few = palette_bound s h e in
    let (i, hi, differ) = uniform_value-none s u in
    let h0 : 0 < chunk_volume = omega arith in
    let blocks : get_or s.palette (read_raw s i) 0 ≢ get_or s.palette (read_raw s 0) 0 =
      λ q. differ (get_lem s i h hi ∙ q ∙ sym (get_lem s 0 h h0)) in
    let marked : AllUsed used s = λ j hj.
      mark-used chunk_volume 0 s unused j (omega arith) hj
        (omega (arith, length-replicate (length s.palette) false, h.indices j hj)) in
    let (a, a', la, ea) =
      keep_slots-used 0 used s.palette (read_raw s i) (h.indices i hi) (marked i hi) in
    let (b, b', lb, eb) =
      keep_slots-used 0 used s.palette (read_raw s 0) (h.indices 0 h0) (marked 0 h0) in
    let old =
      two_places s.palette (read_raw s i) (read_raw s 0) (h.indices i hi) (h.indices 0 h0) blocks in
    let new =
      two_places (keep_slots 0 used s.palette).0 a b la lb (λ q. blocks (sym ea ∙ q ∙ eb)) in
    elim (Bool-cases (all_of used)) [
      | inl q ↦ rw q (resized-SameVoxels s h few old)
      | inr q ↦ rw q (rebuild-SameVoxels used s h marked few new)
    ]

-- `compact` of a store with the invariant leaves one with the invariant that shows the same block at
-- every voxel of the chunk.
pub compact-SameVoxels : (s : PalettedChunkStore) → IsStore s → SameVoxels s (compact s)
unfolding compact
compact-SameVoxels s h = elim (Bool-cases (s.bits_per_index == 0)) [
  | inl e ↦ rw (compact, e) (record { store = h; voxels = λ i hi. refl })
  | inr e ↦ elim (Option-cases (uniform_value s)) [
    | inr (block, u) ↦
        rw (compact, e, u)
          (record {
            store = (get-fill s block 0).0;
            voxels = λ i hi. (get-fill s block i).1 ∙ sym (uniform_value-some s block i u hi);
          })
    | inl u ↦ rw (compact, e, u) (mixed-SameVoxels s h e u)
  ]
]
