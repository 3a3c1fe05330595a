-- ===== src/Protocol/EntityKinds.antt =====
-- inc/vb/protocol/world.hpp and src/protocol/world.cpp: the registry of entity kinds, which the server
-- sends while a client joins. A float is its bit pattern.
pub mod RoundTrip
use voxel_browser.Prelude.{
  ℕ, zero, suc, ◌+◌, ◌*◌, ◌^◌, ◌≤◌, ◌<◌, ◌≡◌, Bool, true, false, not, ◌||◌, ◌&&◌, Option, none,
  some, List, [], ◌∷◌, ◌++◌, map, ap, arith, ltb, leb, ◌==◌, if◌then◌else◌, le→ltb, length, All,
  refl,
}
use voxel_browser.Prelude.Int.{ℤ, InRange}
use voxel_browser.Protocol.ByteBuffer.{
  put_le, get_le, get_u8, put_boolean, get_boolean, put_varint, get_varint, put_string, get_string,
  get_bytes, max_decoded_length, length_exceeded, bad_enum, malformed, Reader, fail,
}
use voxel_browser.Protocol.ByteBuffer.Signed.{
  put_i32, get_i32, put_svarint, get_svarint_32, get_varint_32,
}
use voxel_browser.Protocol.Result.{
  Result, ok, err, Decoder, ◌>>=◌, ◌>>◌, ret, read, reject_if, reject_live_if, fail_live_if,
  read_list, read_capped, write_optional, read_optional, decode_with, concat,
}

abbrev pub max_entity_kind_registry_records : ℕ
max_entity_kind_registry_records = 4096

abbrev pub max_entity_clips : ℕ
max_entity_clips = 64

pub record EntityClipDef : Type 0 where
  pub clip : List ℕ
  pub frames : ℕ
  pub fps : ℕ

unfoldable pub write_entity_clip : EntityClipDef → List ℕ
write_entity_clip m = concat (put_string m.clip ∷ put_le 2 m.frames ∷ put_le 4 m.fps ∷ [])

unfoldable pub read_entity_clip : Decoder EntityClipDef
read_entity_clip = do
  clip ← read (get_string max_decoded_length)
  frames ← read (get_le 2)
  fps ← read (get_le 4)
  ret (record { clip = clip; frames = frames; fps = fps })

pub record EntityVisualDef : Type 0 where
  pub texture : List ℕ
  pub frame_width : ℕ
  pub frame_height : ℕ
  pub facings : ℕ
  pub origin_x : ℕ
  pub origin_y : ℕ
  pub mirror : Bool
  pub clips : List EntityClipDef

unfoldable pub write_entity_visual : EntityVisualDef → List ℕ
write_entity_visual m = concat (
    put_string m.texture
    ∷ put_le 2 m.frame_width
    ∷ put_le 2 m.frame_height
    ∷ put_le 1 m.facings
    ∷ put_le 4 m.origin_x
    ∷ put_le 4 m.origin_y
    ∷ put_boolean m.mirror
    ∷ put_varint (length m.clips)
    ∷ concat (map write_entity_clip m.clips)
    ∷ [])

unfoldable pub read_entity_visual : Decoder EntityVisualDef
read_entity_visual = do
  texture ← read (get_string max_decoded_length)
  frame_width ← read (get_le 2)
  frame_height ← read (get_le 2)
  facings ← read get_u8
  origin_x ← read (get_le 4)
  origin_y ← read (get_le 4)
  mirror ← read get_boolean
  count_clips ← read get_varint
  clips ← read_capped count_clips max_entity_clips read_entity_clip
  ret (record {
    texture = texture;
    frame_width = frame_width;
    frame_height = frame_height;
    facings = facings;
    origin_x = origin_x;
    origin_y = origin_y;
    mirror = mirror;
    clips = clips;
  })

pub record EntityKindRegistryRecord : Type 0 where
  pub name : List ℕ
  pub width : ℕ
  pub height : ℕ
  pub visual : Option EntityVisualDef

unfoldable pub write_kind_record : EntityKindRegistryRecord → List ℕ
write_kind_record m = concat (
    put_string m.name
    ∷ put_le 4 m.width
    ∷ put_le 4 m.height
    ∷ write_optional write_entity_visual m.visual
    ∷ [])

unfoldable pub read_kind_record : Decoder EntityKindRegistryRecord
read_kind_record = do
  name ← read (get_string max_decoded_length)
  width ← read (get_le 4)
  height ← read (get_le 4)
  visual ← read_optional read_entity_visual
  ret (record { name = name; width = width; height = height; visual = visual })

pub record S2CEntityKindRegistry : Type 0 where
  pub kinds : List EntityKindRegistryRecord

unfoldable pub encode_entity_kind_registry : S2CEntityKindRegistry → List ℕ
encode_entity_kind_registry m =
    concat (put_varint (length m.kinds) ∷ concat (map write_kind_record m.kinds) ∷ [])

unfoldable pub decode_entity_kind_registry : List ℕ → Result S2CEntityKindRegistry
decode_entity_kind_registry = decode_with do
  count_kinds ← read get_varint
  reject_if (ltb max_entity_kind_registry_records count_kinds) length_exceeded
  kinds ← read_list count_kinds read_kind_record
  ret (record { kinds = kinds })
