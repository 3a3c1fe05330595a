-- ===== src/Protocol/Snapshot/RoundTrip.antt =====
-- inc/vb/protocol/snapshot.hpp and src/protocol/snapshot.cpp: the entity snapshot of each server
-- tick: what a decoder makes of an encoder's bytes.
use voxel_browser.Prelude.{
  ℕ, ◌^◌, ◌≤◌, ◌<◌, ◌≡◌, Bool, true, false, Option, none, some, List, ◌++◌, arith, le→ltb, length,
  All, refl,
}
use voxel_browser.Protocol.ByteBuffer.{max_decoded_length}
use voxel_browser.Protocol.Result.{Decoder}
use voxel_browser.Protocol.Result.Reads.{
  Reads, next, skip, done, exactly, decode_with-Reads, reject_if-Reads, read_list-Reads, OptionAll,
  optional,
}
use voxel_browser.Protocol.Result.Fields.{word, varint, boolean, text}
use voxel_browser.Protocol.EntityKinds.{EntityClipDef}
use voxel_browser.Protocol.EntityKinds.RoundTrip.{EntityClipDefFits, entity_clip-Reads}
use voxel_browser.Protocol.Result.Reads.{alone}
use voxel_browser.Protocol.Snapshot.{
  max_records, max_visual_override_clips, write_both, read_both, read_override_clips,
  write_override_clips, EntityVisualOverride, write_visual_override, read_visual_override,
  EntityRecord, write_record, read_record, no_record, write_local, read_local, S2CEntitySnapshot,
  encode_entity_snapshot, decode_entity_snapshot,
}

-- Both are set, or neither.
abbrev pub BothFit : ℕ → Option ℕ → Option ℕ → Type 0
BothFit bound none none = Unit
BothFit bound none (some b) = ⊥
BothFit bound (some a) none = ⊥
BothFit bound (some a) (some b) = (a < bound) × (b < bound)

both-Reads :
    (bound : ℕ) (item : Decoder ℕ) (write : ℕ → List ℕ)
    → ((x : ℕ) → x < bound → Reads item (write x) x)
    → (a b : Option ℕ) → BothFit bound a b
    → Reads (read_both item) (write_both write a b) (a, b)
unfolding read_both write_both
both-Reads bound item write each none none h = alone _ (boolean false) (done _)
both-Reads bound item write each none (some b) h = absurd h
both-Reads bound item write each (some a) none h = absurd h
both-Reads bound item write each (some a) (some b) h =
    next _ (boolean true) (next _ (each a h.0) (next _ (each b h.1) (done _)))

abbrev pub ClipsFit : Option (List EntityClipDef) → Type 0
ClipsFit none = Unit
ClipsFit (some clips) = All EntityClipDefFits clips × (length clips ≤ max_visual_override_clips)

override_clips-Reads :
    (o : Option (List EntityClipDef))
    → ClipsFit o
    → Reads read_override_clips (write_override_clips o) o
unfolding read_override_clips write_override_clips
override_clips-Reads none h = alone _ (boolean false) (done _)
override_clips-Reads (some clips) h = next _ (boolean true) (
    next _ (varint (omega arith)) (
      rw (le→ltb max_visual_override_clips (length clips) h.1)
        (next _ (read_list-Reads EntityClipDefFits _ _ entity_clip-Reads clips h.0) (done _))))

-- The values that the wire format can carry.
pub record EntityVisualOverrideFits (m : EntityVisualOverride) : Type 0 where
  pub texture : OptionAll (λ s. length s ≤ max_decoded_length) m.texture
  pub frame_width : BothFit (2 ^ 16) m.frame_width m.frame_height
  pub facings : OptionAll (λ x. x < 2 ^ 8) m.facings
  pub mirror : OptionAll (λ b. Unit {0}) m.mirror
  pub origin_x : BothFit (2 ^ 32) m.origin_x m.origin_y
  pub clips : ClipsFit m.clips

pub visual_override-Reads :
    (m : EntityVisualOverride)
    → EntityVisualOverrideFits m
    → Reads read_visual_override (write_visual_override m) m
unfolding read_visual_override write_visual_override
visual_override-Reads m h =
    next _ (optional (λ s. length s ≤ max_decoded_length) _ _ (λ s k. text k) _ h.texture) (
      next _ (both-Reads (2 ^ 16) _ _ (λ x k. word 2 k) m.frame_width m.frame_height h.frame_width)
        (next _ (optional (λ x. x < 2 ^ 8) _ _ (λ x k. word 1 k) _ h.facings) (
          next _ (optional (λ b. Unit {0}) _ _ (λ b k. boolean b) _ h.mirror) (
            next _ (both-Reads (2 ^ 32) _ _ (λ x k. word 4 k) m.origin_x m.origin_y h.origin_x)
              (next _ (override_clips-Reads _ h.clips) (done _))))))

-- The values that the wire format can carry.
pub record EntityRecordFits (m : EntityRecord) : Type 0 where
  pub net_id : m.net_id < 2 ^ 32
  pub kind : m.kind < 2 ^ 16
  pub pos_x : m.pos_x < 2 ^ 64
  pub pos_y : m.pos_y < 2 ^ 64
  pub pos_z : m.pos_z < 2 ^ 64
  pub rot_x : m.rot_x < 2 ^ 32
  pub rot_y : m.rot_y < 2 ^ 32
  pub vel_x : m.vel_x < 2 ^ 32
  pub vel_y : m.vel_y < 2 ^ 32
  pub vel_z : m.vel_z < 2 ^ 32
  pub flags : m.flags < 2 ^ 8
  pub visual_override : OptionAll EntityVisualOverrideFits m.visual_override
  pub item : OptionAll (λ x. x < 2 ^ 16) m.item

pub record-Reads : (m : EntityRecord) → EntityRecordFits m → Reads read_record (write_record m) m
unfolding read_record write_record
record-Reads m h = next _ (word 4 h.net_id) (
    next _ (word 2 h.kind) (
      next _ (word 8 h.pos_x) (
        next _ (word 8 h.pos_y) (
          next _ (word 8 h.pos_z) (
            next _ (word 4 h.rot_x) (
              next _ (word 4 h.rot_y) (
                next _ (word 4 h.vel_x) (
                  next _ (word 4 h.vel_y) (
                    next _ (word 4 h.vel_z) (
                      next _ (word 1 h.flags) (
                        next _
                          (optional EntityVisualOverrideFits _ _ visual_override-Reads _
                            h.visual_override)
                          (next _ (optional (λ x. x < 2 ^ 16) _ _ (λ x k. word 2 k) _ h.item)
                            (done _)))))))))))))

abbrev pub LocalFits : Bool → EntityRecord → Type 0
LocalFits true local = EntityRecordFits local
LocalFits false local = local ≡ no_record

local-Reads :
    (has : Bool) (local : EntityRecord)
    → LocalFits has local
    → Reads (read_local has) (write_local has local) local
unfolding read_local write_local
local-Reads true local h = record { run = λ rest. (record-Reads local h).run rest }
local-Reads false local h = record { run = λ rest. rw h refl }

-- The values that the wire format can carry.
pub record S2CEntitySnapshotFits (m : S2CEntitySnapshot) : Type 0 where
  pub server_tick : m.server_tick < 2 ^ 32
  pub last_acked_input_seq : m.last_acked_input_seq < 2 ^ 32
  pub entered : All EntityRecordFits m.entered
  pub count_entered : length m.entered ≤ max_records
  pub updated : All EntityRecordFits m.updated
  pub count_updated : length m.updated ≤ max_records
  pub removed : All (λ x. x < 2 ^ 32) m.removed
  pub count_removed : length m.removed ≤ max_records
  pub local : LocalFits m.has_local m.local

-- `decode` gives back a message whose values fit the wire format from the bytes that `encode` wrote,
-- and answers trailing_bytes if more bytes follow them.
pub decode-encode_entity_snapshot :
    (m : S2CEntitySnapshot) (extra : List ℕ)
    → S2CEntitySnapshotFits m
    → decode_entity_snapshot (encode_entity_snapshot m ++ extra) ≡ exactly m extra
unfolding decode_entity_snapshot encode_entity_snapshot
decode-encode_entity_snapshot m extra h = decode_with-Reads extra (
    next _ (word 4 h.server_tick) (
      next _ (word 4 h.last_acked_input_seq) (
        next _ (varint (omega arith)) (
          skip _ (reject_if-Reads _ _ (le→ltb _ _ h.count_entered)) (
            next _ (read_list-Reads EntityRecordFits _ _ record-Reads _ h.entered) (
              next _ (varint (omega arith)) (
                skip _ (reject_if-Reads _ _ (le→ltb _ _ h.count_updated)) (
                  next _ (read_list-Reads EntityRecordFits _ _ record-Reads _ h.updated) (
                    next _ (varint (omega arith)) (
                      skip _ (reject_if-Reads _ _ (le→ltb _ _ h.count_removed)) (
                        next _ (read_list-Reads (λ x. x < 2 ^ 32) _ _ (λ x k. word 4 k) _ h.removed)
                          (next _ (boolean m.has_local)
                            (next _ (local-Reads _ _ h.local) (done _))))))))))))))
