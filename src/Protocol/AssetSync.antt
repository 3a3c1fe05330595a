-- ===== src/Protocol/AssetSync.antt =====
-- inc/vb/protocol/assetsync.hpp and src/protocol/assetsync.cpp: the asset synchronisation messages.
pub mod RoundTrip
use voxel_browser.Prelude.{
  ℕ, zero, suc, ◌+◌, ◌*◌, ◌^◌, ◌≤◌, ◌<◌, ◌≡◌, Bool, true, false, not, ◌||◌, ◌&&◌, Option, none,
  some, List, [], ◌∷◌, ◌++◌, map, ap, arith, ltb, leb, ◌==◌, if◌then◌else◌, le→ltb, length, All,
  refl,
}
use voxel_browser.Prelude.Int.{ℤ, InRange}
use voxel_browser.Protocol.ByteBuffer.{
  put_le, get_le, get_u8, put_boolean, get_boolean, put_varint, get_varint, put_string, get_string,
  get_bytes, max_decoded_length, length_exceeded, bad_enum, malformed, Reader, fail,
}
use voxel_browser.Protocol.ByteBuffer.Signed.{
  put_i32, get_i32, put_svarint, get_svarint_32, get_varint_32,
}
use voxel_browser.Protocol.Result.{
  Result, ok, err, Decoder, ◌>>=◌, ◌>>◌, ret, read, reject_if, reject_live_if, fail_live_if,
  read_list, read_capped, write_optional, read_optional, decode_with, concat,
}

abbrev pub max_manifest_entries : ℕ
max_manifest_entries = 65536

abbrev pub max_requested_hashes : ℕ
max_requested_hashes = 65536

abbrev pub max_asset_chunk_bytes : ℕ
max_asset_chunk_bytes = 1024 * 1024

-- `valid(AssetKind)`: kScript up to kData.
unfoldable pub is_asset_kind : ℕ → Bool
is_asset_kind kind = leb kind 5

pub record AssetHash : Type 0 where
  pub lo : ℕ
  pub hi : ℕ

unfoldable pub write_hash : AssetHash → List ℕ
write_hash m = concat (put_le 8 m.lo ∷ put_le 8 m.hi ∷ [])

unfoldable pub read_hash : Decoder AssetHash
read_hash = do lo ← read (get_le 8); hi ← read (get_le 8); ret (record { lo = lo; hi = hi })

pub record C2SAssetManifestRequest : Type 0 where
  pub known_manifest_hash : AssetHash

unfoldable pub encode_asset_manifest_request : C2SAssetManifestRequest → List ℕ
encode_asset_manifest_request m = concat (write_hash m.known_manifest_hash ∷ [])

unfoldable pub decode_asset_manifest_request : List ℕ → Result C2SAssetManifestRequest
decode_asset_manifest_request =
    decode_with
      do known_manifest_hash ← read_hash; ret (record { known_manifest_hash = known_manifest_hash })

pub record AssetEntryRecord : Type 0 where
  pub path : List ℕ
  pub hash : AssetHash
  pub size : ℕ
  pub kind : ℕ

unfoldable pub write_asset_entry : AssetEntryRecord → List ℕ
write_asset_entry m =
    concat (put_string m.path ∷ write_hash m.hash ∷ put_le 8 m.size ∷ put_le 1 m.kind ∷ [])

unfoldable pub read_asset_entry : Decoder AssetEntryRecord
read_asset_entry = do
  path ← read (get_string max_decoded_length)
  hash ← read_hash
  size ← read (get_le 8)
  kind ← read get_u8
  fail_live_if (not (is_asset_kind kind)) bad_enum
  ret (record { path = path; hash = hash; size = size; kind = kind })

pub record S2CAssetManifest : Type 0 where
  pub manifest_hash : AssetHash
  pub total_bytes : ℕ
  pub entries : List AssetEntryRecord

unfoldable pub encode_asset_manifest : S2CAssetManifest → List ℕ
encode_asset_manifest m = concat (
    write_hash m.manifest_hash
    ∷ put_le 8 m.total_bytes
    ∷ put_varint (length m.entries)
    ∷ concat (map write_asset_entry m.entries)
    ∷ [])

unfoldable pub decode_asset_manifest : List ℕ → Result S2CAssetManifest
decode_asset_manifest = decode_with do
  manifest_hash ← read_hash
  total_bytes ← read (get_le 8)
  count_entries ← read get_varint
  reject_if (ltb max_manifest_entries count_entries) length_exceeded
  entries ← read_list count_entries read_asset_entry
  ret (record { manifest_hash = manifest_hash; total_bytes = total_bytes; entries = entries })

pub record C2SAssetRequest : Type 0 where
  pub missing : List AssetHash

unfoldable pub encode_asset_request : C2SAssetRequest → List ℕ
encode_asset_request m =
    concat (put_varint (length m.missing) ∷ concat (map write_hash m.missing) ∷ [])

unfoldable pub decode_asset_request : List ℕ → Result C2SAssetRequest
decode_asset_request = decode_with do
  count_missing ← read get_varint
  reject_if (ltb max_requested_hashes count_missing) length_exceeded
  missing ← read_list count_missing read_hash
  ret (record { missing = missing })

-- The field `bytes` is `chunk` here.
pub record S2CAssetData : Type 0 where
  pub hash : AssetHash
  pub seq : ℕ
  pub total_chunks : ℕ
  pub chunk : List ℕ

unfoldable pub encode_asset_data : S2CAssetData → List ℕ
encode_asset_data m = concat (
    write_hash m.hash
    ∷ put_le 4 m.seq
    ∷ put_le 4 m.total_chunks
    ∷ put_varint (length m.chunk)
    ∷ m.chunk
    ∷ [])

unfoldable pub decode_asset_data : List ℕ → Result S2CAssetData
decode_asset_data = decode_with do
  hash ← read_hash
  seq ← read (get_le 4)
  total_chunks ← read (get_le 4)
  count_chunk ← read get_varint
  reject_if (ltb max_asset_chunk_bytes count_chunk) length_exceeded
  chunk ← read (get_bytes count_chunk)
  ret (record { hash = hash; seq = seq; total_chunks = total_chunks; chunk = chunk })
