-- ===== src/Protocol/AssetSync/RoundTrip.antt =====
-- inc/vb/protocol/assetsync.hpp and src/protocol/assetsync.cpp: the asset synchronisation
-- messages: what a decoder makes of an encoder's bytes.
use voxel_browser.Prelude.{
  ℕ, ◌^◌, ◌≤◌, ◌<◌, ◌≡◌, true, not, List, ◌++◌, ap, arith, le→ltb, length, All,
}
use voxel_browser.Protocol.ByteBuffer.{max_decoded_length}
use voxel_browser.Protocol.Result.Reads.{
  Reads, next, skip, done, exactly, decode_with-Reads, reject_if-Reads, fail_live_if-Reads,
  read_list-Reads,
}
use voxel_browser.Protocol.Result.Fields.{word, varint, text, bytes}
use voxel_browser.Protocol.AssetSync.{
  max_manifest_entries, max_requested_hashes, max_asset_chunk_bytes, is_asset_kind, AssetHash,
  write_hash, read_hash, C2SAssetManifestRequest, encode_asset_manifest_request,
  decode_asset_manifest_request, AssetEntryRecord, write_asset_entry, read_asset_entry,
  S2CAssetManifest, encode_asset_manifest, decode_asset_manifest, C2SAssetRequest,
  encode_asset_request, decode_asset_request, S2CAssetData, encode_asset_data, decode_asset_data,
}

-- The values that the wire format can carry.
pub record AssetHashFits (m : AssetHash) : Type 0 where
  pub lo : m.lo < 2 ^ 64
  pub hi : m.hi < 2 ^ 64

pub hash-Reads : (m : AssetHash) → AssetHashFits m → Reads read_hash (write_hash m) m
unfolding read_hash write_hash
hash-Reads m h = next _ (word 8 h.lo) (next _ (word 8 h.hi) (done _))

-- The values that the wire format can carry.
pub record C2SAssetManifestRequestFits (m : C2SAssetManifestRequest) : Type 0 where
  pub known_manifest_hash : AssetHashFits m.known_manifest_hash

-- `decode` gives back a message whose values fit the wire format from the bytes that `encode` wrote,
-- and answers trailing_bytes if more bytes follow them.
pub decode-encode_asset_manifest_request :
    (m : C2SAssetManifestRequest) (extra : List ℕ)
    → C2SAssetManifestRequestFits m
    → decode_asset_manifest_request (encode_asset_manifest_request m ++ extra) ≡ exactly m extra
unfolding decode_asset_manifest_request encode_asset_manifest_request
decode-encode_asset_manifest_request m extra h =
    decode_with-Reads extra (next _ (hash-Reads _ h.known_manifest_hash) (done _))

-- The values that the wire format can carry.
pub record AssetEntryRecordFits (m : AssetEntryRecord) : Type 0 where
  pub path : length m.path ≤ max_decoded_length
  pub hash : AssetHashFits m.hash
  pub size : m.size < 2 ^ 64
  pub kind : m.kind < 256
  pub kind_valid : is_asset_kind m.kind ≡ true

pub asset_entry-Reads :
    (m : AssetEntryRecord) → AssetEntryRecordFits m → Reads read_asset_entry (write_asset_entry m) m
unfolding read_asset_entry write_asset_entry
asset_entry-Reads m h = next _ (text h.path) (
    next _ (hash-Reads _ h.hash) (
      next _ (word 8 h.size)
        (next _ (word 1 h.kind) (skip _ (fail_live_if-Reads _ _ (ap not h.kind_valid)) (done _)))))

-- The values that the wire format can carry.
pub record S2CAssetManifestFits (m : S2CAssetManifest) : Type 0 where
  pub manifest_hash : AssetHashFits m.manifest_hash
  pub total_bytes : m.total_bytes < 2 ^ 64
  pub entries : All AssetEntryRecordFits m.entries
  pub count_entries : length m.entries ≤ max_manifest_entries

-- `decode` gives back a message whose values fit the wire format from the bytes that `encode` wrote,
-- and answers trailing_bytes if more bytes follow them.
pub decode-encode_asset_manifest :
    (m : S2CAssetManifest) (extra : List ℕ)
    → S2CAssetManifestFits m
    → decode_asset_manifest (encode_asset_manifest m ++ extra) ≡ exactly m extra
unfolding decode_asset_manifest encode_asset_manifest
decode-encode_asset_manifest m extra h = decode_with-Reads extra (
    next _ (hash-Reads _ h.manifest_hash) (
      next _ (word 8 h.total_bytes) (
        next _ (varint (omega arith)) (
          skip _ (reject_if-Reads _ _ (le→ltb _ _ h.count_entries)) (
            next _ (read_list-Reads AssetEntryRecordFits _ _ asset_entry-Reads _ h.entries)
              (done _))))))

-- The values that the wire format can carry.
pub record C2SAssetRequestFits (m : C2SAssetRequest) : Type 0 where
  pub missing : All AssetHashFits m.missing
  pub count_missing : length m.missing ≤ max_requested_hashes

-- `decode` gives back a message whose values fit the wire format from the bytes that `encode` wrote,
-- and answers trailing_bytes if more bytes follow them.
pub decode-encode_asset_request :
    (m : C2SAssetRequest) (extra : List ℕ)
    → C2SAssetRequestFits m
    → decode_asset_request (encode_asset_request m ++ extra) ≡ exactly m extra
unfolding decode_asset_request encode_asset_request
decode-encode_asset_request m extra h = decode_with-Reads extra (
    next _ (varint (omega arith)) (
      skip _ (reject_if-Reads _ _ (le→ltb _ _ h.count_missing))
        (next _ (read_list-Reads AssetHashFits _ _ hash-Reads _ h.missing) (done _))))

-- The values that the wire format can carry.
pub record S2CAssetDataFits (m : S2CAssetData) : Type 0 where
  pub hash : AssetHashFits m.hash
  pub seq : m.seq < 2 ^ 32
  pub total_chunks : m.total_chunks < 2 ^ 32
  pub chunk : length m.chunk ≤ max_asset_chunk_bytes

-- `decode` gives back a message whose values fit the wire format from the bytes that `encode` wrote,
-- and answers trailing_bytes if more bytes follow them.
pub decode-encode_asset_data :
    (m : S2CAssetData) (extra : List ℕ)
    → S2CAssetDataFits m
    → decode_asset_data (encode_asset_data m ++ extra) ≡ exactly m extra
unfolding decode_asset_data encode_asset_data
decode-encode_asset_data m extra h = decode_with-Reads extra (
    next _ (hash-Reads _ h.hash) (
      next _ (word 4 h.seq) (
        next _ (word 4 h.total_chunks) (
          next _ (varint (omega arith))
            (skip _ (reject_if-Reads _ _ (le→ltb _ _ h.chunk)) (next _ (bytes _) (done _)))))))
