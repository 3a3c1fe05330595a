-- ===== src/Protocol/Snapshot.antt =====
-- inc/vb/protocol/snapshot.hpp and src/protocol/snapshot.cpp: the entity snapshot of each server tick.
-- A float or double is its bit pattern.
pub mod RoundTrip
use voxel_browser.Prelude.{
  ℕ, zero, suc, ◌+◌, ◌*◌, ◌^◌, ◌≤◌, ◌<◌, ◌≡◌, Bool, true, false, not, ◌||◌, ◌&&◌, Option, none,
  some, List, [], ◌∷◌, ◌++◌, map, ap, arith, ltb, leb, ◌==◌, if◌then◌else◌, le→ltb, length, All,
  refl,
}
use voxel_browser.Prelude.Int.{ℤ, InRange}
use voxel_browser.Protocol.ByteBuffer.{
  put_le, get_le, get_u8, put_boolean, get_boolean, put_varint, get_varint, put_string, get_string,
  get_bytes, max_decoded_length, length_exceeded, bad_enum, malformed, Reader, fail,
}
use voxel_browser.Protocol.ByteBuffer.Signed.{
  put_i32, get_i32, put_svarint, get_svarint_32, get_varint_32,
}
use voxel_browser.Protocol.Result.{
  Result, ok, err, Decoder, ◌>>=◌, ◌>>◌, ret, read, reject_if, reject_live_if, fail_live_if,
  read_list, read_capped, write_optional, read_optional, decode_with, concat,
}
use voxel_browser.Protocol.ByteBuffer.{failed}
use voxel_browser.Protocol.EntityKinds.{EntityClipDef, write_entity_clip, read_entity_clip}

abbrev pub max_records : ℕ
max_records = 65536

abbrev pub max_visual_override_clips : ℕ
max_visual_override_clips = 64

-- The two options of a pair that travels together: `has = a.has_value() && b.has_value()`.
unfoldable pub write_both : (ℕ → List ℕ) → Option ℕ → Option ℕ → List ℕ
write_both write none b = put_boolean false
write_both write (some a) none = put_boolean false
write_both write (some a) (some b) = concat (put_boolean true ∷ write a ∷ write b ∷ [])

unfoldable pub read_both : Decoder ℕ → Decoder (Option ℕ × Option ℕ)
read_both item = do
  has ← read get_boolean
  if has then (do a ← item; b ← item; ret (some a, some b)) else ret (none, none)

-- The last field of `read_visual_override`: past the cap it stays unset, and the reader fails.
unfoldable pub read_override_clips : Decoder (Option (List EntityClipDef))
read_override_clips = do
  has ← read get_boolean
  if has
      then (do
        n ← read get_varint
        if ltb max_visual_override_clips n
            then (λ r. ok (none, fail length_exceeded r))
            else (do clips ← read_list n read_entity_clip; ret (some clips)))
      else ret none

unfoldable pub write_override_clips : Option (List EntityClipDef) → List ℕ
write_override_clips none = put_boolean false
write_override_clips (some clips) =
    concat
      (put_boolean true ∷ put_varint (length clips) ∷ concat (map write_entity_clip clips) ∷ [])

pub record EntityVisualOverride : Type 0 where
  pub texture : Option (List ℕ)
  pub frame_width : Option ℕ
  pub frame_height : Option ℕ
  pub facings : Option ℕ
  pub mirror : Option Bool
  pub origin_x : Option ℕ
  pub origin_y : Option ℕ
  pub clips : Option (List EntityClipDef)

unfoldable pub write_visual_override : EntityVisualOverride → List ℕ
write_visual_override m = concat (
    write_optional put_string m.texture
    ∷ write_both (put_le 2) m.frame_width m.frame_height
    ∷ write_optional (put_le 1) m.facings
    ∷ write_optional put_boolean m.mirror
    ∷ write_both (put_le 4) m.origin_x m.origin_y
    ∷ write_override_clips m.clips
    ∷ [])

unfoldable pub read_visual_override : Decoder EntityVisualOverride
read_visual_override = do
  texture ← read_optional (read (get_string max_decoded_length))
  frame_size ← read_both (read (get_le 2))
  facings ← read_optional (read get_u8)
  mirror ← read_optional (read get_boolean)
  origin ← read_both (read (get_le 4))
  clips ← read_override_clips
  ret (record {
    texture = texture;
    frame_width = frame_size.0;
    frame_height = frame_size.1;
    facings = facings;
    mirror = mirror;
    origin_x = origin.0;
    origin_y = origin.1;
    clips = clips;
  })

pub record EntityRecord : Type 0 where
  pub net_id : ℕ
  pub kind : ℕ
  pub pos_x : ℕ
  pub pos_y : ℕ
  pub pos_z : ℕ
  pub rot_x : ℕ
  pub rot_y : ℕ
  pub vel_x : ℕ
  pub vel_y : ℕ
  pub vel_z : ℕ
  pub flags : ℕ
  pub visual_override : Option EntityVisualOverride
  pub item : Option ℕ

unfoldable pub write_record : EntityRecord → List ℕ
write_record m = concat (
    put_le 4 m.net_id
    ∷ put_le 2 m.kind
    ∷ put_le 8 m.pos_x
    ∷ put_le 8 m.pos_y
    ∷ put_le 8 m.pos_z
    ∷ put_le 4 m.rot_x
    ∷ put_le 4 m.rot_y
    ∷ put_le 4 m.vel_x
    ∷ put_le 4 m.vel_y
    ∷ put_le 4 m.vel_z
    ∷ put_le 1 m.flags
    ∷ write_optional write_visual_override m.visual_override
    ∷ write_optional (put_le 2) m.item
    ∷ [])

unfoldable pub read_record : Decoder EntityRecord
read_record = do
  net_id ← read (get_le 4)
  kind ← read (get_le 2)
  pos_x ← read (get_le 8)
  pos_y ← read (get_le 8)
  pos_z ← read (get_le 8)
  rot_x ← read (get_le 4)
  rot_y ← read (get_le 4)
  vel_x ← read (get_le 4)
  vel_y ← read (get_le 4)
  vel_z ← read (get_le 4)
  flags ← read get_u8
  visual_override ← read_optional read_visual_override
  item ← read_optional (read (get_le 2))
  ret (record {
    net_id = net_id;
    kind = kind;
    pos_x = pos_x;
    pos_y = pos_y;
    pos_z = pos_z;
    rot_x = rot_x;
    rot_y = rot_y;
    vel_x = vel_x;
    vel_y = vel_y;
    vel_z = vel_z;
    flags = flags;
    visual_override = visual_override;
    item = item;
  })

-- A default-constructed EntityRecord.
abbrev pub no_record : EntityRecord
no_record = record {
  net_id = 0;
  kind = 0;
  pos_x = 0;
  pos_y = 0;
  pos_z = 0;
  rot_x = 0;
  rot_y = 0;
  vel_x = 0;
  vel_y = 0;
  vel_z = 0;
  flags = 0;
  visual_override = none;
  item = none;
}

unfoldable pub write_local : Bool → EntityRecord → List ℕ
write_local true local = write_record local
write_local false local = []

-- `if (m.has_local && !r.failed()) { m.local = read_record(r); }`
unfoldable pub read_local : Bool → Decoder EntityRecord
read_local has_local r = if has_local && not (failed r) then read_record r else ok (no_record, r)

pub record S2CEntitySnapshot : Type 0 where
  pub server_tick : ℕ
  pub last_acked_input_seq : ℕ
  pub entered : List EntityRecord
  pub updated : List EntityRecord
  pub removed : List ℕ
  pub has_local : Bool
  pub local : EntityRecord

unfoldable pub encode_entity_snapshot : S2CEntitySnapshot → List ℕ
encode_entity_snapshot m = concat (
    put_le 4 m.server_tick
    ∷ put_le 4 m.last_acked_input_seq
    ∷ put_varint (length m.entered)
    ∷ concat (map write_record m.entered)
    ∷ put_varint (length m.updated)
    ∷ concat (map write_record m.updated)
    ∷ put_varint (length m.removed)
    ∷ concat (map (put_le 4) m.removed)
    ∷ put_boolean m.has_local
    ∷ write_local m.has_local m.local
    ∷ [])

unfoldable pub decode_entity_snapshot : List ℕ → Result S2CEntitySnapshot
decode_entity_snapshot = decode_with do
  server_tick ← read (get_le 4)
  last_acked_input_seq ← read (get_le 4)
  count_entered ← read get_varint
  reject_if (ltb max_records count_entered) length_exceeded
  entered ← read_list count_entered read_record
  count_updated ← read get_varint
  reject_if (ltb max_records count_updated) length_exceeded
  updated ← read_list count_updated read_record
  count_removed ← read get_varint
  reject_if (ltb max_records count_removed) length_exceeded
  removed ← read_list count_removed (read (get_le 4))
  has_local ← read get_boolean
  local ← read_local has_local
  ret (record {
    server_tick = server_tick;
    last_acked_input_seq = last_acked_input_seq;
    entered = entered;
    updated = updated;
    removed = removed;
    has_local = has_local;
    local = local;
  })
