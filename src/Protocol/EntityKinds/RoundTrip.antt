-- ===== src/Protocol/EntityKinds/RoundTrip.antt =====
-- inc/vb/protocol and src/protocol, Protocol/EntityKinds: what a decoder makes of an encoder's
-- bytes.
use voxel_browser.Prelude.{ℕ, ◌^◌, ◌≤◌, ◌<◌, ◌≡◌, List, ◌++◌, arith, le→ltb, length, All}
use voxel_browser.Protocol.ByteBuffer.{max_decoded_length}
use voxel_browser.Protocol.Result.Reads.{
  Reads, next, skip, done, exactly, decode_with-Reads, reject_if-Reads, read_list-Reads,
  read_capped-Reads, OptionAll, optional,
}
use voxel_browser.Protocol.Result.Fields.{word, varint, boolean, text}
use voxel_browser.Protocol.EntityKinds.{
  max_entity_kind_registry_records, max_entity_clips, EntityClipDef, write_entity_clip,
  read_entity_clip, EntityVisualDef, write_entity_visual, read_entity_visual,
  EntityKindRegistryRecord, write_kind_record, read_kind_record, S2CEntityKindRegistry,
  encode_entity_kind_registry, decode_entity_kind_registry,
}

-- The values that the wire format can carry.
pub record EntityClipDefFits (m : EntityClipDef) : Type 0 where
  pub clip : length m.clip ≤ max_decoded_length
  pub frames : m.frames < 2 ^ 16
  pub fps : m.fps < 2 ^ 32

pub entity_clip-Reads :
    (m : EntityClipDef) → EntityClipDefFits m → Reads read_entity_clip (write_entity_clip m) m
unfolding read_entity_clip write_entity_clip
entity_clip-Reads m h =
    next _ (text h.clip) (next _ (word 2 h.frames) (next _ (word 4 h.fps) (done _)))

-- The values that the wire format can carry.
pub record EntityVisualDefFits (m : EntityVisualDef) : Type 0 where
  pub texture : length m.texture ≤ max_decoded_length
  pub frame_width : m.frame_width < 2 ^ 16
  pub frame_height : m.frame_height < 2 ^ 16
  pub facings : m.facings < 2 ^ 8
  pub origin_x : m.origin_x < 2 ^ 32
  pub origin_y : m.origin_y < 2 ^ 32
  pub clips : All EntityClipDefFits m.clips
  pub count_clips : length m.clips ≤ max_entity_clips

pub entity_visual-Reads :
    (m : EntityVisualDef)
    → EntityVisualDefFits m
    → Reads read_entity_visual (write_entity_visual m) m
unfolding read_entity_visual write_entity_visual
entity_visual-Reads m h = next _ (text h.texture) (
    next _ (word 2 h.frame_width) (
      next _ (word 2 h.frame_height) (
        next _ (word 1 h.facings) (
          next _ (word 4 h.origin_x) (
            next _ (word 4 h.origin_y) (
              next _ (boolean m.mirror) (
                next _ (varint (omega arith)) (
                  next _
                    (read_capped-Reads _ _ _ h.count_clips
                      (read_list-Reads EntityClipDefFits _ _ entity_clip-Reads _ h.clips))
                    (done _)))))))))

-- The values that the wire format can carry.
pub record EntityKindRegistryRecordFits (m : EntityKindRegistryRecord) : Type 0 where
  pub name : length m.name ≤ max_decoded_length
  pub width : m.width < 2 ^ 32
  pub height : m.height < 2 ^ 32
  pub visual : OptionAll EntityVisualDefFits m.visual

pub kind_record-Reads :
    (m : EntityKindRegistryRecord)
    → EntityKindRegistryRecordFits m
    → Reads read_kind_record (write_kind_record m) m
unfolding read_kind_record write_kind_record
kind_record-Reads m h = next _ (text h.name) (
    next _ (word 4 h.width) (
      next _ (word 4 h.height)
        (next _ (optional EntityVisualDefFits _ _ entity_visual-Reads _ h.visual) (done _))))

-- The values that the wire format can carry.
pub record S2CEntityKindRegistryFits (m : S2CEntityKindRegistry) : Type 0 where
  pub kinds : All EntityKindRegistryRecordFits m.kinds
  pub count_kinds : length m.kinds ≤ max_entity_kind_registry_records

-- `decode` gives back a message whose values fit the wire format from the bytes that `encode` wrote,
-- and answers trailing_bytes if more bytes follow them.
pub decode-encode_entity_kind_registry :
    (m : S2CEntityKindRegistry) (extra : List ℕ)
    → S2CEntityKindRegistryFits m
    → decode_entity_kind_registry (encode_entity_kind_registry m ++ extra) ≡ exactly m extra
unfolding decode_entity_kind_registry encode_entity_kind_registry
decode-encode_entity_kind_registry m extra h = decode_with-Reads extra (
    next _ (varint (omega arith)) (
      skip _ (reject_if-Reads _ _ (le→ltb _ _ h.count_kinds)) (
        next _ (read_list-Reads EntityKindRegistryRecordFits _ _ kind_record-Reads _ h.kinds)
          (done _))))
