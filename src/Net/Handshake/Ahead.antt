-- ===== src/Net/Handshake/Ahead.antt =====
-- src/net/handshake.cpp: the chunks that are still before the asset stream of the server's machine.
use voxel_browser.Prelude.{
  ℕ, zero, suc, ◌+◌, ◌-◌, ◌*◌, ◌<◌, ◌^◌, ◌≡◌, refl, sym, ap, ◌∙◌, ◌⊎◌, inl, inr, true, false, some,
  List, [], ◌∷◌, ◌++◌, map, leb, length, length-drop, get_or, take, drop, arith, Bool-cases,
}
use voxel_browser.Protocol.AssetSync.{AssetHash}
use voxel_browser.Protocol.Messages.{Message, asset_data}
use voxel_browser.Net.Handshake.Server.{HandshakeServerHost, AssetStreamState}
use voxel_browser.Net.Handshake.Assets.{
  asset_chunk_bytes, chunk_count, min, no_hash, load_asset, next_chunk, advance_stream, all_sent,
}
use voxel_browser.Net.Handshake.Chunks.{
  chunk_at, chunks_from, file_chunks, chunk_count_lem, take-all,
}

module _ (host : HandshakeServerHost) (file : AssetHash → List ℕ) where
  -- The host has these files, all below 2 ^ 47 bytes.
  abbrev pub Available : List AssetHash → Type 0
  Available [] = Unit {0}
  Available (h ∷ hs) =
      (host.asset_file_bytes h ≡ some (file h)) × (length (file h) < 2 ^ 47) × Available hs

  -- The messages of the files' chunks, file after file.
  unfoldable pub files_messages : List AssetHash → List Message
  files_messages [] = []
  files_messages (h ∷ hs) = map asset_data (file_chunks h (file h)) ++ files_messages hs

  -- The stream is at the file `h`, of which n + 1 chunks are left, and `rest` follows.
  pub record Loaded (h : AssetHash) (rest : List AssetHash) (n : ℕ) (stream : AssetStreamState)
      : Type 0 where
    pub at : drop stream.pending_idx stream.pending ≡ h ∷ rest
    pub loaded : stream.current_loaded ≡ true
    pub bytes : stream.current_bytes ≡ file h
    pub total : stream.current_total_chunks ≡ chunk_count (length (file h))
    pub left : stream.current_chunk_idx + suc n ≡ chunk_count (length (file h))
    pub found : Available rest

  unfoldable pub left_of : (h : AssetHash) (rest : List AssetHash) (n idx : ℕ) → List Message
  left_of h rest n idx = map asset_data (chunks_from h (file h) idx (suc n)) ++ files_messages rest

  -- The stream has these messages before it.
  unfoldable pub Ahead : AssetStreamState → List Message → Type 0
  Ahead stream out =
      (h : AssetHash) × (rest : List AssetHash) × (((drop stream.pending_idx stream.pending
            ≡ h ∷ rest)
          × (stream.current_loaded ≡ false)
          × Available (h ∷ rest)
          × (out ≡ files_messages (h ∷ rest)))
        ⊎ ((n : ℕ) × Loaded h rest n stream × (out ≡ left_of h rest n stream.current_chunk_idx)))

  drop-head :
      {A : Type 0} (xs : List A) (i : ℕ) (x d : A) (rest : List A)
      → drop i xs ≡ x ∷ rest
      → (get_or xs i d ≡ x) × (drop (suc i) xs ≡ rest)
  drop-head [] zero x d rest e = cc
  drop-head [] (suc i) x d rest e = cc
  drop-head (y ∷ xs) zero x d rest e = (cc, cc)
  drop-head (y ∷ xs) (suc i) x d rest e = drop-head xs i x d rest e

  length_of-nil : {A : Type 0} (xs : List A) (i : ℕ) → drop i xs ≡ [] → leb (length xs) i ≡ true
  length_of-nil xs i e = ground (arith, length-drop i xs, ap length e)

  length_of-cons :
      {A : Type 0} (xs : List A) (i : ℕ) (x : A) (rest : List A)
      → drop i xs ≡ x ∷ rest
      → leb (length xs) i ≡ false
  length_of-cons xs i x rest e = ground (arith, length-drop i xs, ap length e)

  -- A stream with messages before it is not at its end, and the next chunk can be loaded.
  pub Ahead-Loaded :
      (stream : AssetStreamState) (out : List Message)
      → Ahead stream out
      → (all_sent stream ≡ false)
        × ((h : AssetHash) × (rest : List AssetHash) × (n : ℕ) × (stream' : AssetStreamState)
            × (get_or stream.pending stream.pending_idx no_hash ≡ h)
            × (load_asset host h stream ≡ some stream')
            × Loaded h rest n stream'
            × (out ≡ left_of h rest n stream'.current_chunk_idx))
  unfolding load_asset left_of files_messages file_chunks Ahead
  Ahead-Loaded stream out (h, rest, inl (at, new, (here, small, found), o)) =
      let (g, d) = drop-head stream.pending stream.pending_idx h no_hash rest at in
      let (one, all) = chunk_count_lem (length (file h)) small in
      let count : chunk_count (length (file h)) ≡ suc (chunk_count (length (file h)) - 1) =
        omega (arith, one) in
      (
        length_of-cons stream.pending stream.pending_idx h rest at,
        (
          h,
          rest,
          chunk_count (length (file h)) - 1,
          record stream {
            current_bytes = file h;
            current_chunk_idx = 0;
            current_total_chunks = chunk_count (length (file h));
            current_loaded = true;
          },
          g,
          (rw (new, here) refl),
          record {
            at = at;
            loaded = refl;
            bytes = refl;
            total = refl;
            left = omega (arith, one);
            found = found;
          },
          o
              ∙ ap (λ (k : ℕ). map asset_data (chunks_from h (file h) 0 k) ++ files_messages rest)
                  count,
        ),
      )
  Ahead-Loaded stream out (h, rest, inr (n, l, o)) =
      let (g, d) = drop-head stream.pending stream.pending_idx h no_hash rest l.at in
      (
        length_of-cons stream.pending stream.pending_idx h rest l.at,
        (h, rest, n, stream, g, rw l.loaded refl, l, o),
      )

  take-min : {A : Type 0} (m n : ℕ) (xs : List A) → length xs ≡ m → take (min m n) xs ≡ take n xs
  take-min m n xs e = elim (Bool-cases (leb m n)) [
    | inl b ↦ rw b (take-all m xs (omega (arith, e)) ∙ sym (take-all n xs (ground (arith, e, b))))
    | inr b ↦ rw b refl
  ]

  -- The next chunk is the next of the file.
  pub next_chunk-chunk_at :
      (h : AssetHash) (rest : List AssetHash) (n : ℕ) (stream : AssetStreamState)
      → Loaded h rest n stream
      → next_chunk h stream ≡ chunk_at h (file h) stream.current_chunk_idx
  unfolding next_chunk chunk_at
  next_chunk-chunk_at h rest n stream l =
      rw (l.bytes, l.total)
        (ap
          (λ (t : List ℕ). record {
            hash = h;
            seq = stream.current_chunk_idx;
            total_chunks = chunk_count (length (file h));
            chunk = t;
          })
          (take-min (length (file h) - stream.current_chunk_idx * asset_chunk_bytes)
            asset_chunk_bytes (drop (stream.current_chunk_idx * asset_chunk_bytes) (file h))
            (length-drop (stream.current_chunk_idx * asset_chunk_bytes) (file h))))

  -- The stream after the last chunk of a file, and after any other.
  advance_stream-last :
      (h : AssetHash) (rest : List AssetHash) (stream : AssetStreamState)
      → Loaded h rest 0 stream
      → advance_stream stream ≡ record stream {
        pending_idx = stream.pending_idx + 1;
        current_bytes = [];
        current_chunk_idx = stream.current_chunk_idx + 1;
        current_loaded = false;
      }
  unfolding advance_stream
  advance_stream-last h rest stream l = ground (arith, l.total, l.left)

  advance_stream-more :
      (h : AssetHash) (rest : List AssetHash) (n : ℕ) (stream : AssetStreamState)
      → Loaded h rest (suc n) stream
      → advance_stream stream ≡ record stream { current_chunk_idx = stream.current_chunk_idx + 1 }
  unfolding advance_stream
  advance_stream-more h rest n stream l = ground (arith, l.total, l.left)

  -- The messages that are left once the next chunk is sent.
  unfoldable pub then_left : (h : AssetHash) (rest : List AssetHash) (n idx : ℕ) → List Message
  then_left h rest n idx =
      map asset_data (chunks_from h (file h) (suc idx) n) ++ files_messages rest

  pub left_of-cons :
      (h : AssetHash) (rest : List AssetHash) (n idx : ℕ)
      → left_of h rest n idx ≡ asset_data (chunk_at h (file h) idx) ∷ then_left h rest n idx
  unfolding left_of then_left chunks_from
  left_of-cons h rest n idx = refl

  Loaded-next :
      (h : AssetHash) (rest : List AssetHash) (stream : AssetStreamState)
      → Loaded h rest 0 stream
      → drop (stream.pending_idx + 1) stream.pending ≡ rest
  Loaded-next h rest stream l =
      let next : stream.pending_idx + 1 ≡ suc stream.pending_idx = omega arith in
      ap (λ (k : ℕ). drop k stream.pending) next
      ∙ (drop-head stream.pending stream.pending_idx h no_hash rest l.at).1

  pub advance_stream-Ahead :
      (h : AssetHash) (rest : List AssetHash) (n : ℕ) (stream : AssetStreamState)
      → Loaded h rest n stream
      → ((all_sent (advance_stream stream) ≡ true)
          × (then_left h rest n stream.current_chunk_idx ≡ []))
        ⊎ ((all_sent (advance_stream stream) ≡ false)
            × Ahead (advance_stream stream) (then_left h rest n stream.current_chunk_idx))
  unfolding Ahead then_left files_messages chunks_from left_of
  advance_stream-Ahead h [] zero stream l = rw (advance_stream-last h [] stream l) (
      inl (length_of-nil stream.pending (stream.pending_idx + 1) (Loaded-next h [] stream l), refl))
  advance_stream-Ahead h (k ∷ rest) zero stream l =
      let d = Loaded-next h (k ∷ rest) stream l in
      rw (advance_stream-last h (k ∷ rest) stream l) (
        inr (
          length_of-cons stream.pending (stream.pending_idx + 1) k rest d,
          (k, rest, inl (d, refl, l.found, refl)),
        ))
  advance_stream-Ahead h rest (suc n) stream l =
      let next : suc stream.current_chunk_idx ≡ stream.current_chunk_idx + 1 = omega arith in
      rw (advance_stream-more h rest n stream l) (
        inr (
          length_of-cons stream.pending stream.pending_idx h rest l.at,
          (
            h,
            rest,
            inr (
              n,
              record {
                at = l.at;
                loaded = l.loaded;
                bytes = l.bytes;
                total = l.total;
                left = omega (arith, l.left);
                found = l.found;
              },
              ap
                  (λ (k : ℕ).
                    map asset_data (chunks_from h (file h) k (suc n)) ++ files_messages rest)
                  next,
            ),
          ),
        ))
