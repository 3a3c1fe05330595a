-- ===== src/Net/Handshake/Assets.antt =====
-- src/net/handshake.cpp: `ServerHandshake::pump_assets`, the pacing of the asset stream.
use voxel_browser.Prelude.{
  ℕ, zero, suc, ◌+◌, ◌-◌, ◌*◌, ◌/◌, ◌%◌, ◌^◌, Bool, true, false, Option, none, some, List, [], ◌∷◌,
  ◌++◌, leb, ◌==◌, if◌then◌else◌, length, get_or, take, drop, ◌≡◌, inl, inr, Bool-cases,
  Option-cases,
}
use voxel_browser.Protocol.AssetSync.{AssetHash, S2CAssetData}
use voxel_browser.Protocol.Messages.{Message, asset_data}
use voxel_browser.Net.Handshake.Texts.{asset_not_found}
use voxel_browser.Net.Handshake.Server.{
  ServerHandshake, HandshakeServerHost, AssetStreamState, Reaction, streaming_assets,
  awaiting_ready, protocol_error, sends, fail,
}

abbrev pub asset_chunk_bytes : ℕ
asset_chunk_bytes = 48 * 1024

abbrev pub min : ℕ → ℕ → ℕ
min a b = if leb a b then a else b

-- The number of chunks of a file of this size, as a uint32.
abbrev pub chunk_count : ℕ → ℕ
chunk_count size =
    (if size == 0 then 1 else (size + asset_chunk_bytes - 1) / asset_chunk_bytes) % 2 ^ 32

abbrev pub no_hash : AssetHash
no_hash = record { lo = 0; hi = 0 }

-- The file of this hash, if it is not there yet; `none`: the host does not have it.
unfoldable pub load_asset :
    HandshakeServerHost → AssetHash → AssetStreamState → Option AssetStreamState
load_asset host hash stream =
    if stream.current_loaded then some stream else elim (host.asset_file_bytes hash) [
      | none ↦ none
      | some bytes ↦ some (record stream {
        current_bytes = bytes;
        current_chunk_idx = 0;
        current_total_chunks = chunk_count (length bytes);
        current_loaded = true;
      })
    ]

unfoldable pub next_chunk : AssetHash → AssetStreamState → S2CAssetData
next_chunk hash stream =
    let offset = stream.current_chunk_idx * asset_chunk_bytes in
    let remaining = length stream.current_bytes - offset in
    let chunk_len = min remaining asset_chunk_bytes in
    record {
      hash = hash;
      seq = stream.current_chunk_idx;
      total_chunks = stream.current_total_chunks;
      chunk = take chunk_len (drop offset stream.current_bytes);
    }

unfoldable pub advance_stream : AssetStreamState → AssetStreamState
advance_stream stream =
    let idx = stream.current_chunk_idx + 1 in
    if leb stream.current_total_chunks idx
    then record stream {
      pending_idx = stream.pending_idx + 1;
      current_bytes = [];
      current_chunk_idx = idx;
      current_loaded = false;
    }
    else record stream { current_chunk_idx = idx }

abbrev pub all_sent : AssetStreamState → Bool
all_sent stream = leb (length stream.pending) stream.pending_idx

-- The loop of `pump_assets`: the chunks it may still send, and the messages it has queued.
unfoldable pub pump_loop : ℕ → HandshakeServerHost → List Message → ServerHandshake → Reaction
pump_loop zero host queued s = (sends queued, s)
pump_loop (suc budget) host queued s =
    let hash = get_or s.asset_stream.pending s.asset_stream.pending_idx no_hash in
    if all_sent s.asset_stream
    then (sends queued, record s { state = awaiting_ready })
    else elim (load_asset host hash s.asset_stream) [
      | none ↦ fail protocol_error asset_not_found s
      | some stream ↦
          let queued' = queued ++ (asset_data (next_chunk hash stream) ∷ []) in
          let stream' = advance_stream stream in
          let s' : ServerHandshake = record s { asset_stream = stream' } in
          let rest = pump_loop budget host queued' s' in
          if all_sent stream' then (sends queued', record s' { state = awaiting_ready }) else rest
    ]

unfoldable pub pump_assets : ℕ → HandshakeServerHost → ServerHandshake → Reaction
pump_assets max_chunks host s = elim s.state [
  | streaming_assets ↦ pump_loop max_chunks host [] s
  | other ↦ (sends [], s)
]

-- The message for the next chunk of the file that the stream is at.
abbrev pub chunk_message : AssetStreamState → AssetStreamState → Message
chunk_message before stream =
    asset_data (next_chunk (get_or before.pending before.pending_idx no_hash) stream)

-- What holds of the queue and the machine as long as the stream runs gives what the loop ends in.
pub pump_loop_lem :
    (P : List Message → ServerHandshake → Type 0) (R : Reaction → Type 0)
    (host : HandshakeServerHost)
    → ((queued : List Message) → (s : ServerHandshake) → P queued s → R (sends queued, s))
    → ((queued : List Message)
        → (s : ServerHandshake) → P queued s
        → R (sends queued, record s { state = awaiting_ready }))
    → ((queued : List Message)
        → (s : ServerHandshake) → P queued s
        → R (fail protocol_error asset_not_found s))
    → ((queued : List Message)
        → (s : ServerHandshake) → (stream : AssetStreamState)
        → load_asset host
            (get_or s.asset_stream.pending s.asset_stream.pending_idx no_hash)
            s.asset_stream
          ≡ some stream
        → P queued s
        → P
            (queued ++ (chunk_message s.asset_stream stream ∷ []))
            (record s { asset_stream = advance_stream stream }))
    → (budget : ℕ) (queued : List Message) (s : ServerHandshake) → P queued s
    → R (pump_loop budget host queued s)
unfolding pump_loop
pump_loop_lem P R host stop finish failed step zero queued s p = stop queued s p
pump_loop_lem P R host stop finish failed step (suc budget) queued s p =
    elim (Bool-cases (all_sent s.asset_stream)) [
      | inl e ↦ rw e (finish queued s p)
      | inr e ↦
          elim (Option-cases (
            load_asset host (get_or s.asset_stream.pending s.asset_stream.pending_idx no_hash)
              s.asset_stream)) [
                | inl n ↦ rw (e, n) (failed queued s p)
                | inr (stream, n) ↦
                    let queued' = queued ++ (chunk_message s.asset_stream stream ∷ []) in
                    let s' : ServerHandshake = record s { asset_stream = advance_stream stream } in
                    let p' = step queued s stream n p in
                    elim (Bool-cases (all_sent (advance_stream stream))) [
                      | inl f ↦ rw (e, n, f) (finish queued' s' p')
                      | inr f ↦
                          rw (e, n, f)
                            (pump_loop_lem P R host stop finish failed step budget queued' s' p')
                    ]
              ]
    ]
