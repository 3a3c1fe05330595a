-- ===== src/Protocol/Examples.antt =====
-- The theorems of the wire protocol at concrete messages.
use voxel_browser.Prelude.{
  ℕ, ◌≡◌, refl, Bool, true, false, Option, none, some, List, [], ◌∷◌, ◌++◌, length, replicate,
  arith, if◌then◌else◌, ◌&&◌, ◌==◌,
}
use voxel_browser.Prelude.Int.{pos, negsuc}
use voxel_browser.Core.Ids.{IVec3}
use voxel_browser.Protocol.ByteBuffer.{
  open_reader, short_buffer, put_le, put_varint, get_varint, put_string, get_string,
}
use voxel_browser.Protocol.ByteBuffer.Reads.{get_varint-Gets, get_string-Gets}
use voxel_browser.Protocol.ByteBuffer.Signed.{put_svarint, get_svarint, get_svarint-Gets}
use voxel_browser.Protocol.Result.{ok, err}
use voxel_browser.Protocol.Message.{write_frame, read_frame}
use voxel_browser.Protocol.Message.Framing.{read_frame-write_frame, read_frame-truncated}
use voxel_browser.Protocol.Compression.{Lz4, Lz4Laws, compress_lz4, decompress_lz4}
use voxel_browser.Protocol.Compression.RoundTrip.{decompress_lz4-compress_lz4}
use voxel_browser.Protocol.Handshake.{
  S2CAuthChallenge, encode_auth_challenge, decode_auth_challenge,
}
use voxel_browser.Protocol.Handshake.RoundTrip.{decode-encode_auth_challenge}
use voxel_browser.Protocol.World.{S2CChunkDelta, encode_chunk_delta, decode_chunk_delta}
use voxel_browser.Protocol.World.RoundTrip.{decode-encode_chunk_delta}
use voxel_browser.Protocol.EntityKinds.{
  S2CEntityKindRegistry, encode_entity_kind_registry, decode_entity_kind_registry,
}
use voxel_browser.Protocol.EntityKinds.RoundTrip.{decode-encode_entity_kind_registry}
use voxel_browser.Protocol.AssetSync.{
  S2CAssetManifest, encode_asset_manifest, decode_asset_manifest, is_asset_kind,
}
use voxel_browser.Protocol.AssetSync.RoundTrip.{decode-encode_asset_manifest}
use voxel_browser.Protocol.Snapshot.{
  EntityVisualOverride, EntityRecord, S2CEntitySnapshot, no_record, encode_entity_snapshot,
  decode_entity_snapshot,
}
use voxel_browser.Protocol.Snapshot.RoundTrip.{S2CEntitySnapshotFits, decode-encode_entity_snapshot}
use voxel_browser.Protocol.Messages.{entity_snapshot, encode_message, decode_message, message_type}
use voxel_browser.Protocol.Messages.RoundTrip.{decode_message-encode_message}

get_varint-Gets_example :
    get_varint (open_reader (put_varint 300 ++ (7 ∷ []))) ≡ (300, open_reader (7 ∷ []))
get_varint-Gets_example = get_varint-Gets 300 (omega arith) (7 ∷ [])

get_svarint-Gets_example :
    get_svarint (open_reader (put_svarint (negsuc 299) ++ [])) ≡ (negsuc 299, open_reader [])
get_svarint-Gets_example = get_svarint-Gets (negsuc 299) (omega arith) []

get_string-Gets_example :
    get_string 2 (open_reader (put_string (104 ∷ 105 ∷ []) ++ []))
    ≡ (104 ∷ 105 ∷ [], open_reader [])
get_string-Gets_example = get_string-Gets 2 (104 ∷ 105 ∷ []) (omega arith) (omega arith) []

read_frame-write_frame_example : read_frame (write_frame 0x31 (1 ∷ 2 ∷ []) 0 ++ (9 ∷ [])) ≡ (
  ok (record { header = record { type = 0x31; flags = 0; payload_len = 2 }; payload = 1 ∷ 2 ∷ [] }),
  10,
)
read_frame-write_frame_example =
    read_frame-write_frame 0x31 0 (1 ∷ 2 ∷ []) (9 ∷ []) (omega arith) (omega arith) (omega arith)

read_frame-truncated_example :
    read_frame (0x31 ∷ 0 ∷ 0 ∷ 0 ∷ 2 ∷ 0 ∷ 0 ∷ 0 ∷ 1 ∷ []) ≡ (err short_buffer, 0)
unfolding write_frame put_le
read_frame-truncated_example =
    read_frame-truncated 0x31 0 (1 ∷ 2 ∷ []) (0x31 ∷ 0 ∷ 0 ∷ 0 ∷ 2 ∷ 0 ∷ 0 ∷ 0 ∷ 1 ∷ []) [] 2
      (omega arith) (omega arith) (omega arith) refl

-- A compressor that knows one thing: a block of zeros is the byte 0, any other is a 1 and itself.
abbrev pub all_zero : List ℕ → Bool
all_zero [] = true
all_zero (b ∷ bs) = b == 0 && all_zero bs

abbrev pub zeros_decompress : List ℕ → ℕ → Option (List ℕ)
zeros_decompress [] n = none
zeros_decompress (b ∷ bs) n = if b == 0 then some (replicate n 0) else some bs

abbrev pub zeros_lz4 : Lz4
zeros_lz4 = record {
  compress = λ bytes. if all_zero bytes then 0 ∷ [] else 1 ∷ bytes;
  decompress = zeros_decompress;
}

all_zero-replicate : (bs : List ℕ) → all_zero bs ≡ true → replicate (length bs) 0 ≡ bs
all_zero-replicate [] h = refl
all_zero-replicate (b ∷ bs) h = ground (arith, all_zero-replicate bs)

pub zeros_lz4_laws : Lz4Laws zeros_lz4
zeros_lz4_laws = record {
  nonempty = λ b bs h. ground arith;
  inverse = λ b bs h. ground (arith, all_zero-replicate (b ∷ bs));
}

decompress_lz4-compress_lz4_example :
    decompress_lz4 zeros_lz4 (compress_lz4 zeros_lz4 (0 ∷ 0 ∷ 0 ∷ [])) ≡ ok (0 ∷ 0 ∷ 0 ∷ [])
decompress_lz4-compress_lz4_example =
    decompress_lz4-compress_lz4 zeros_lz4 (0 ∷ 0 ∷ 0 ∷ []) zeros_lz4_laws (omega arith)

abbrev pub far_block : IVec3
far_block = record { x = pos 5; y = negsuc 0; z = pos 100000 }

abbrev delta : S2CChunkDelta
delta = record {
  coord = record { x = negsuc 0; y = pos 0; z = pos 2 };
  base_revision = 4;
  new_revision = 5;
  blocks = record { local_index = 32767; block = 2 } ∷ [];
  light = record { local_index = 31; packed = 240 } ∷ [];
}

decode-encode_chunk_delta_example : decode_chunk_delta (encode_chunk_delta delta ++ []) ≡ ok delta
decode-encode_chunk_delta_example = decode-encode_chunk_delta delta [] record {
  coord = record { x = omega arith; y = omega arith; z = omega arith };
  base_revision = omega arith;
  new_revision = omega arith;
  blocks = (record { local_index = omega arith; block = omega arith }, tt);
  count_blocks = omega arith;
  light = (record { local_index = omega arith; packed = omega arith }, tt);
  count_light = omega arith;
}

abbrev challenge : S2CAuthChallenge
challenge = record {
  provider = 111 ∷ [];
  display_name = [];
  issuer = 105 ∷ [];
  client_id = 99 ∷ [];
  scopes = (97 ∷ []) ∷ (98 ∷ []) ∷ [];
  params = record { key = 107 ∷ []; value = 118 ∷ [] } ∷ [];
  nonce = 1 ∷ 2 ∷ 3 ∷ [];
}

decode-encode_auth_challenge_example :
    decode_auth_challenge (encode_auth_challenge challenge ++ []) ≡ ok challenge
decode-encode_auth_challenge_example = decode-encode_auth_challenge challenge [] record {
  provider = omega arith;
  display_name = omega arith;
  issuer = omega arith;
  client_id = omega arith;
  scopes = (omega arith, (omega arith, tt));
  count_scopes = omega arith;
  params = (record { key = omega arith; value = omega arith }, tt);
  count_params = omega arith;
  nonce = omega arith;
}

abbrev kinds : S2CEntityKindRegistry
kinds = record {
  kinds =
      record {
        name = 112 ∷ [];
        width = 5;
        height = 6;
        visual = some (record {
          texture = 116 ∷ [];
          frame_width = 16;
          frame_height = 32;
          facings = 4;
          origin_x = 0;
          origin_y = 1;
          mirror = true;
          clips = record { clip = 119 ∷ []; frames = 3; fps = 8 } ∷ [];
        });
      }
      ∷ [];
}

decode-encode_entity_kind_registry_example :
    decode_entity_kind_registry (encode_entity_kind_registry kinds ++ []) ≡ ok kinds
decode-encode_entity_kind_registry_example = decode-encode_entity_kind_registry kinds [] record {
  kinds = (
    record {
      name = omega arith;
      width = omega arith;
      height = omega arith;
      visual = record {
        texture = omega arith;
        frame_width = omega arith;
        frame_height = omega arith;
        facings = omega arith;
        origin_x = omega arith;
        origin_y = omega arith;
        clips = (record { clip = omega arith; frames = omega arith; fps = omega arith }, tt);
        count_clips = omega arith;
      };
    },
    tt,
  );
  count_kinds = omega arith;
}

abbrev manifest : S2CAssetManifest
manifest = record {
  manifest_hash = record { lo = 1; hi = 2 };
  total_bytes = 9;
  entries = record { path = 97 ∷ []; hash = record { lo = 3; hi = 4 }; size = 9; kind = 2 } ∷ [];
}

decode-encode_asset_manifest_example :
    decode_asset_manifest (encode_asset_manifest manifest ++ []) ≡ ok manifest
unfolding is_asset_kind
decode-encode_asset_manifest_example = decode-encode_asset_manifest manifest [] record {
  manifest_hash = record { lo = omega arith; hi = omega arith };
  total_bytes = omega arith;
  entries = (
    record {
      path = omega arith;
      hash = record { lo = omega arith; hi = omega arith };
      size = omega arith;
      kind = omega arith;
      kind_valid = refl;
    },
    tt,
  );
  count_entries = omega arith;
}

abbrev visual : EntityVisualOverride
visual = record {
  texture = none;
  frame_width = some 16;
  frame_height = some 24;
  facings = some 8;
  mirror = some false;
  origin_x = none;
  origin_y = none;
  clips = some (record { clip = 119 ∷ []; frames = 3; fps = 8 } ∷ []);
}

abbrev walker : EntityRecord
walker = record no_record {
  net_id = 12;
  kind = 1;
  pos_x = 4;
  visual_override = some visual;
  item = some 6;
}

abbrev pub snapshot : S2CEntitySnapshot
snapshot = record {
  server_tick = 100;
  last_acked_input_seq = 98;
  entered = walker ∷ [];
  updated = [];
  removed = 3 ∷ 4 ∷ [];
  has_local = false;
  local = no_record;
}

abbrev pub snapshot_fits : S2CEntitySnapshotFits snapshot
snapshot_fits = record {
  server_tick = omega arith;
  last_acked_input_seq = omega arith;
  entered = (
    record {
      net_id = omega arith;
      kind = omega arith;
      pos_x = omega arith;
      pos_y = omega arith;
      pos_z = omega arith;
      rot_x = omega arith;
      rot_y = omega arith;
      vel_x = omega arith;
      vel_y = omega arith;
      vel_z = omega arith;
      flags = omega arith;
      visual_override = record {
        texture = tt;
        frame_width = (omega arith, omega arith);
        facings = omega arith;
        mirror = tt;
        origin_x = tt;
        clips = (
          (record { clip = omega arith; frames = omega arith; fps = omega arith }, tt),
          omega arith,
        );
      };
      item = omega arith;
    },
    tt,
  );
  count_entered = omega arith;
  updated = tt;
  count_updated = omega arith;
  removed = (omega arith, (omega arith, tt));
  count_removed = omega arith;
  local = refl;
}

decode-encode_entity_snapshot_example :
    decode_entity_snapshot (encode_entity_snapshot snapshot ++ []) ≡ ok snapshot
decode-encode_entity_snapshot_example = decode-encode_entity_snapshot snapshot [] snapshot_fits

decode_message-encode_message_example :
    decode_message 60 (encode_message (entity_snapshot snapshot)) ≡ ok (entity_snapshot snapshot)
unfolding message_type
decode_message-encode_message_example =
    decode_message-encode_message (entity_snapshot snapshot) snapshot_fits
