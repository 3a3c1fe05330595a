-- ===== src/World/PalettedChunkStore/Repack.antt =====
-- src/world/paletted_chunk_store.cpp: `set_width` and the loop that writes indices anew.
use voxel_browser.Prelude.{
  ℕ, zero, suc, ◌+◌, ◌*◌, ◌/◌, ◌^◌, ◌≤◌, ◌<◌, ◌≡◌, refl, sym, ap, ◌∙◌, arith, true, List, ltb, ◌==◌,
  if◌then◌else◌, length, get_or, replicate, Bool-cases, subst, inl, inr,
}
use native.Mathlib.Nat.{mod-lt, zero-mod, zero-div}
use voxel_browser.World.PalettedChunkStore.{
  PalettedChunkStore, chunk_volume, words_for, read_raw, write_raw, repack, set_width,
}
use voxel_browser.World.PalettedChunkStore.Fields.{pow_pos}
use voxel_browser.World.PalettedChunkStore.Raw.{
  Width, IsPacked, read_raw-write_raw, write_raw-IsPacked,
}

pub read_raw_bound : (s : PalettedChunkStore) (i : ℕ) → read_raw s i < 2 ^ s.bits_per_index
unfolding read_raw
read_raw_bound s i = elim (Bool-cases (s.bits_per_index == 0)) [
  | inl e ↦ rw e (pow_pos s.bits_per_index)
  | inr e ↦ rw e (mod-lt _ (pow_pos s.bits_per_index))
]

-- One round of `repack`.
place : PalettedChunkStore → ℕ → ℕ → PalettedChunkStore
place new i v = if v == 0 then new else write_raw new i v

read_raw-place :
    (new : PalettedChunkStore) (i v j : ℕ)
    → IsPacked new
    → i < chunk_volume
    → v < 2 ^ new.bits_per_index
    → read_raw new i ≡ 0
    → read_raw (place new i v) j ≡ (if i == j then v else read_raw new j)
unfolding place
read_raw-place new i v j p hi hv blank = ground (arith, read_raw-write_raw new i v j p hi hv)

place-IsPacked : (new : PalettedChunkStore) (i v : ℕ) → IsPacked new → IsPacked (place new i v)
unfolding place
place-IsPacked new i v p = ground (arith, write_raw-IsPacked new i v p)

place-bits :
    (new : PalettedChunkStore) (i v : ℕ) → (place new i v).bits_per_index ≡ new.bits_per_index
unfolding place write_raw
place-bits new i v = ground arith

place-palette : (new : PalettedChunkStore) (i v : ℕ) → (place new i v).palette ≡ new.palette
unfolding place write_raw
place-palette new i v = ground arith

pub repack-IsPacked :
    (n i : ℕ) (indices : ℕ → ℕ) (new : PalettedChunkStore)
    → IsPacked new
    → IsPacked (repack n i indices new)
unfolding repack place
repack-IsPacked zero i indices new p = p
repack-IsPacked (suc n) i indices new p =
    repack-IsPacked n (i + 1) indices (place new i (indices i)) (place-IsPacked new i (indices i) p)

pub repack-bits :
    (n i : ℕ) (indices : ℕ → ℕ) (new : PalettedChunkStore)
    → (repack n i indices new).bits_per_index ≡ new.bits_per_index
unfolding repack place
repack-bits zero i indices new = refl
repack-bits (suc n) i indices new =
    repack-bits n (i + 1) indices (place new i (indices i)) ∙ place-bits new i (indices i)

pub repack-palette :
    (n i : ℕ) (indices : ℕ → ℕ) (new : PalettedChunkStore)
    → (repack n i indices new).palette ≡ new.palette
unfolding repack place
repack-palette zero i indices new = refl
repack-palette (suc n) i indices new =
    repack-palette n (i + 1) indices (place new i (indices i)) ∙ place-palette new i (indices i)

pub read_raw-repack :
    (n i : ℕ) (indices : ℕ → ℕ) (new : PalettedChunkStore) (j : ℕ)
    → IsPacked new
    → i + n ≤ chunk_volume
    → ((k : ℕ) → k < chunk_volume → indices k < 2 ^ new.bits_per_index)
    → ((k : ℕ) → i ≤ k → k < chunk_volume → read_raw new k ≡ 0)
    → j < i + n
    → read_raw (repack n i indices new) j ≡ (if ltb j i then read_raw new j else indices j)
unfolding repack place
read_raw-repack zero i indices new j p room fits blank h = ground arith
read_raw-repack (suc n) i indices new j p room fits blank h =
    let v = indices i in
    let new' = place new i v in
    let hi : i < chunk_volume = omega arith in
    let placed = λ (k : ℕ). read_raw-place new i v k p hi (fits i hi) (blank i (omega arith) hi) in
    let fits' : (k : ℕ) → k < chunk_volume → indices k < 2 ^ new'.bits_per_index =
      λ k l. rw (place-bits new i v) (fits k l) in
    let blank' : (k : ℕ) → i + 1 ≤ k → k < chunk_volume → read_raw new' k ≡ 0 =
      λ k l m. ground (arith, placed k, blank k) in
    read_raw-repack n (i + 1) indices new' j (place-IsPacked new i v p) (omega arith) fits' blank'
      (omega arith)
    ∙ ground (arith, placed j)

abbrev fresh : List ℕ → ℕ → PalettedChunkStore
fresh palette bits = record {
  palette = palette;
  words = replicate (words_for bits) 0;
  bits_per_index = bits;
}

get_or-replicate : (n i : ℕ) → get_or {A = ℕ} (replicate n 0) i 0 ≡ 0
get_or-replicate zero i = refl
get_or-replicate (suc n) zero = refl
get_or-replicate (suc n) (suc i) = get_or-replicate n i

pub length-replicate {ℓ} : {A : Type ℓ} (n : ℕ) (a : A) → length (replicate n a) ≡ n
length-replicate zero a = refl
length-replicate (suc n) a = ap suc (length-replicate n a)

read_raw-fresh : (palette : List ℕ) (bits i : ℕ) → read_raw (fresh palette bits) i ≡ 0
unfolding read_raw
read_raw-fresh palette bits i = elim (Bool-cases (bits == 0)) [
  | inl e ↦ rw e refl
  | inr e ↦ rw (e, get_or-replicate (words_for bits) (i * bits / 64), zero-div, zero-mod) refl
]

read_raw_unpacked :
    (s : PalettedChunkStore) (i : ℕ) → (s.bits_per_index == 0) ≡ true → read_raw s i ≡ 0
unfolding read_raw
read_raw_unpacked s i e = rw e refl

fresh-IsPacked : (palette : List ℕ) (bits : ℕ) → Width bits → IsPacked (fresh palette bits)
fresh-IsPacked palette bits w = record { width = w; size = length-replicate (words_for bits) 0 }

-- Indices that fit the new width survive `set_width`.
pub read_raw-set_width :
    (bits : ℕ) (s : PalettedChunkStore) (i : ℕ)
    → Width bits
    → ((k : ℕ) → k < chunk_volume → read_raw s k < 2 ^ bits)
    → i < chunk_volume
    → read_raw (set_width bits s) i ≡ read_raw s i
unfolding set_width
read_raw-set_width bits s i w fits h =
    let repacked =
      read_raw-repack chunk_volume 0 (read_raw s) (fresh s.palette bits) i
        (fresh-IsPacked s.palette bits w) (omega arith) fits
        (λ k l m. read_raw-fresh s.palette bits k) h in
    elim (Bool-cases (bits == s.bits_per_index)) [
      | inl e ↦ rw e refl
      | inr e ↦ elim (Bool-cases (s.bits_per_index == 0)) [
        | inl z ↦ rw (e, z) (read_raw-fresh s.palette bits i ∙ sym (read_raw_unpacked s i z))
        | inr z ↦ rw (e, z) (repacked ∙ ground arith)
      ]
    ]

pub set_width-IsPacked :
    (bits : ℕ) (s : PalettedChunkStore)
    → Width bits
    → length s.words ≡ words_for s.bits_per_index
    → IsPacked (set_width bits s)
      × ((set_width bits s).bits_per_index ≡ bits)
      × ((set_width bits s).palette ≡ s.palette)
unfolding set_width
set_width-IsPacked bits s w size =
    let new = fresh s.palette bits in
    let p = fresh-IsPacked s.palette bits w in
    elim (Bool-cases (bits == s.bits_per_index)) [
      | inl e ↦
          let q : s.bits_per_index ≡ bits = ground arith in
          rw e (record { width = subst Width (sym q) w; size = size }, q, refl)
      | inr e ↦ elim (Bool-cases (s.bits_per_index == 0)) [
        | inl z ↦ rw (e, z) (p, refl, refl)
        | inr z ↦
            rw (e, z)
              (
                repack-IsPacked chunk_volume 0 (read_raw s) new p,
                repack-bits chunk_volume 0 (read_raw s) new,
                repack-palette chunk_volume 0 (read_raw s) new,
              )
      ]
    ]
