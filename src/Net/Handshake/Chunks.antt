-- ===== src/Net/Handshake/Chunks.antt =====
-- src/net/handshake.cpp: the chunks of the files that `ServerHandshake::pump_assets` sends.
use voxel_browser.Prelude.{
  ℕ, zero, suc, ◌+◌, ◌*◌, ◌^◌, ◌≤◌, ◌<◌, ◌≡◌, refl, sym, ap, ◌∙◌, List, [], ◌∷◌, ◌++◌, length, take,
  drop, length-take, take-append-drop, arith,
}
use voxel_browser.Protocol.AssetSync.{AssetHash, S2CAssetData}
use voxel_browser.Net.Handshake.Assets.{asset_chunk_bytes, chunk_count}

-- The chunk of this number, cut from the file, and so many chunks from it on: what the loop of `pump_assets`
-- (`pump_loop` in Assets) is to send of a file. Stream is about the loop itself.
unfoldable pub chunk_at : AssetHash → List ℕ → ℕ → S2CAssetData
chunk_at hash bytes seq = record {
  hash = hash;
  seq = seq;
  total_chunks = chunk_count (length bytes);
  chunk = take asset_chunk_bytes (drop (seq * asset_chunk_bytes) bytes);
}

unfoldable pub chunks_from : AssetHash → List ℕ → ℕ → ℕ → List S2CAssetData
chunks_from hash bytes seq zero = []
chunks_from hash bytes seq (suc n) = chunk_at hash bytes seq ∷ chunks_from hash bytes (suc seq) n

unfoldable pub file_chunks : AssetHash → List ℕ → List S2CAssetData
file_chunks hash bytes = chunks_from hash bytes 0 (chunk_count (length bytes))

-- What a receiver gets by appending the chunks.
unfoldable pub reassemble : List S2CAssetData → List ℕ
reassemble [] = []
reassemble (c ∷ cs) = c.chunk ++ reassemble cs

drop-drop {ℓ} : {A : Type ℓ} (m n k : ℕ) (xs : List A) → k ≡ n + m → drop m (drop n xs) ≡ drop k xs
drop-drop m zero k xs e = ap (λ (j : ℕ). drop j xs) (omega arith)
drop-drop zero (suc n) zero [] e = refl
drop-drop zero (suc n) (suc k) [] e = refl
drop-drop (suc m) (suc n) zero [] e = refl
drop-drop (suc m) (suc n) (suc k) [] e = refl
drop-drop m (suc n) zero (x ∷ xs) e = absurd (omega arith)
drop-drop m (suc n) (suc k) (x ∷ xs) e = drop-drop m n k xs (omega arith)

pub take-all {ℓ} : {A : Type ℓ} (n : ℕ) (xs : List A) → length xs ≤ n → take n xs ≡ xs
take-all zero [] h = refl
take-all zero (x ∷ xs) h = absurd (omega arith)
take-all (suc n) [] h = refl
take-all (suc n) (x ∷ xs) h = ap (λ ys. x ∷ ys) (take-all n xs (omega arith))

drop-all {ℓ} : {A : Type ℓ} (n : ℕ) (xs : List A) → length xs ≤ n → drop n xs ≡ []
drop-all zero [] h = refl
drop-all zero (x ∷ xs) h = absurd (omega arith)
drop-all (suc n) [] h = refl
drop-all (suc n) (x ∷ xs) h = drop-all n xs (omega arith)

-- So many chunks from a number on hold the bytes from there on, where they reach the end.
reassemble-chunks_from :
    (hash : AssetHash) (bytes : List ℕ) (seq n : ℕ)
    → length bytes ≤ (seq + n) * asset_chunk_bytes
    → reassemble (chunks_from hash bytes seq n) ≡ drop (seq * asset_chunk_bytes) bytes
unfolding chunks_from reassemble chunk_at
reassemble-chunks_from hash bytes seq zero h =
    sym (drop-all (seq * asset_chunk_bytes) bytes (omega arith))
reassemble-chunks_from hash bytes seq (suc n) h =
    let rest = drop (seq * asset_chunk_bytes) bytes in
    ap (λ (t : List ℕ). take asset_chunk_bytes rest ++ t)
      (reassemble-chunks_from hash bytes (suc seq) n (omega arith)
        ∙ sym (
            drop-drop asset_chunk_bytes (seq * asset_chunk_bytes) (suc seq * asset_chunk_bytes)
              bytes (omega arith)))
    ∙ take-append-drop asset_chunk_bytes rest

-- The number of chunks of a file below 2 ^ 47 bytes is at least 1, and they hold the file.
pub chunk_count_lem :
    (size : ℕ)
    → size < 2 ^ 47
    → (1 ≤ chunk_count size) × (size ≤ chunk_count size * asset_chunk_bytes)
chunk_count_lem size h = ground arith

length-chunk_at :
    (hash : AssetHash) (bytes : List ℕ) (seq : ℕ)
    → length (chunk_at hash bytes seq).chunk ≤ asset_chunk_bytes
unfolding chunk_at
length-chunk_at hash bytes seq =
    omega (arith, length-take asset_chunk_bytes (drop (seq * asset_chunk_bytes) bytes))

-- Every chunk of a file is at most 48 KiB, names the file and the number of its chunks, and carries its number.
abbrev pub Numbered : AssetHash → ℕ → ℕ → List S2CAssetData → Type 0
Numbered hash total seq [] = seq ≡ total
Numbered hash total seq (c ∷ cs) =
    (c.hash ≡ hash)
    × (c.seq ≡ seq)
    × (c.total_chunks ≡ total)
    × (length c.chunk ≤ asset_chunk_bytes)
    × Numbered hash total (suc seq) cs

chunks_from-Numbered :
    (hash : AssetHash) (bytes : List ℕ) (seq n : ℕ)
    → seq + n ≡ chunk_count (length bytes)
    → Numbered hash (chunk_count (length bytes)) seq (chunks_from hash bytes seq n)
unfolding chunks_from chunk_at
chunks_from-Numbered hash bytes seq zero e = omega (arith, e)
chunks_from-Numbered hash bytes seq (suc n) e = (
  refl,
  refl,
  refl,
  length-chunk_at hash bytes seq,
  chunks_from-Numbered hash bytes (suc seq) n (omega (arith, e)),
)

-- The chunks of a file below 2 ^ 47 bytes, appended, are the file; there is at least one, even of an empty
-- file; they are numbered from 0 up to the number of chunks that each of them names, name the file, and
-- are at most 48 KiB long.
pub reassemble-file_chunks :
    (hash : AssetHash) (bytes : List ℕ)
    → length bytes < 2 ^ 47
    → (reassemble (file_chunks hash bytes) ≡ bytes)
      × (1 ≤ chunk_count (length bytes))
      × Numbered hash (chunk_count (length bytes)) 0 (file_chunks hash bytes)
unfolding file_chunks
reassemble-file_chunks hash bytes h =
    let (one, all) = chunk_count_lem (length bytes) h in
    let none_before : 0 * asset_chunk_bytes ≡ 0 = omega arith in
    (
      reassemble-chunks_from hash bytes 0 (chunk_count (length bytes)) (omega (arith, all))
          ∙ ap (λ (k : ℕ). drop k bytes) none_before,
      one,
      chunks_from-Numbered hash bytes 0 (chunk_count (length bytes)) (omega arith),
    )
