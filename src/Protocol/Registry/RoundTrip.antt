-- ===== src/Protocol/Registry/RoundTrip.antt =====
-- inc/vb/protocol/world.hpp and src/protocol/world.cpp: tables and parameters: what a decoder
-- makes of an encoder's bytes.
use voxel_browser.Prelude.{
  ℕ, ◌^◌, ◌≤◌, ◌<◌, ◌≡◌, Bool, true, false, List, [], ◌++◌, arith, if◌then◌else◌, le→ltb, length,
  All,
}
use voxel_browser.Protocol.ByteBuffer.{max_decoded_length}
use voxel_browser.Protocol.Result.{ret}
use voxel_browser.Protocol.Result.Reads.{
  Reads, next, skip, done, exactly, decode_with-Reads, reject_if-Reads, read_list-Reads,
}
use voxel_browser.Protocol.Result.Fields.{word, varint, boolean, text}
use voxel_browser.Prelude.{sym, subst}
use voxel_browser.Protocol.Registry.{
  max_block_registry_records, max_day_night_keyframes, BlockRegistryRecord, write_block_record,
  read_block_record, S2CBlockRegistry, encode_block_registry, decode_block_registry, S2CMoveParams,
  encode_move_params, decode_move_params, DayNightKeyframeRecord, write_keyframe, read_keyframe,
  S2CDayNightCurve, encode_day_night_curve, decode_day_night_curve, Tint, no_tint, write_tint_if,
  read_tint, S2CFogParams, encode_fog_params, decode_fog_params,
}

-- The values that the wire format can carry.
pub record BlockRegistryRecordFits (m : BlockRegistryRecord) : Type 0 where
  pub name : length m.name ≤ max_decoded_length
  pub light_emission : m.light_emission < 2 ^ 8
  pub texture : length m.texture ≤ max_decoded_length
  pub max_damage : m.max_damage < 2 ^ 16
  pub crack_texture : length m.crack_texture ≤ max_decoded_length

pub block_record-Reads :
    (m : BlockRegistryRecord)
    → BlockRegistryRecordFits m
    → Reads read_block_record (write_block_record m) m
unfolding read_block_record write_block_record
block_record-Reads m h = next _ (text h.name) (
    next _ (boolean m.solid) (
      next _ (boolean m.is_opaque) (
        next _ (boolean m.liquid) (
          next _ (word 1 h.light_emission) (
            next _ (text h.texture)
              (next _ (word 2 h.max_damage) (next _ (text h.crack_texture) (done _))))))))

-- The values that the wire format can carry.
pub record S2CBlockRegistryFits (m : S2CBlockRegistry) : Type 0 where
  pub blocks : All BlockRegistryRecordFits m.blocks
  pub count_blocks : length m.blocks ≤ max_block_registry_records

-- `decode` gives back a message whose values fit the wire format from the bytes that `encode` wrote,
-- and answers trailing_bytes if more bytes follow them.
pub decode-encode_block_registry :
    (m : S2CBlockRegistry) (extra : List ℕ)
    → S2CBlockRegistryFits m
    → decode_block_registry (encode_block_registry m ++ extra) ≡ exactly m extra
unfolding decode_block_registry encode_block_registry
decode-encode_block_registry m extra h = decode_with-Reads extra (
    next _ (varint (omega arith)) (
      skip _ (reject_if-Reads _ _ (le→ltb _ _ h.count_blocks)) (
        next _ (read_list-Reads BlockRegistryRecordFits _ _ block_record-Reads _ h.blocks)
          (done _))))

-- The values that the wire format can carry.
pub record S2CMoveParamsFits (m : S2CMoveParams) : Type 0 where
  pub half_width : m.half_width < 2 ^ 64
  pub height : m.height < 2 ^ 64
  pub eye_height : m.eye_height < 2 ^ 64
  pub walk_speed : m.walk_speed < 2 ^ 64
  pub sprint_speed : m.sprint_speed < 2 ^ 64
  pub accel : m.accel < 2 ^ 64
  pub air_accel : m.air_accel < 2 ^ 64
  pub friction : m.friction < 2 ^ 64
  pub gravity : m.gravity < 2 ^ 64
  pub jump_speed : m.jump_speed < 2 ^ 64
  pub terminal_velocity : m.terminal_velocity < 2 ^ 64
  pub step_height : m.step_height < 2 ^ 64
  pub fly_speed : m.fly_speed < 2 ^ 64

-- `decode` gives back a message whose values fit the wire format from the bytes that `encode` wrote,
-- and answers trailing_bytes if more bytes follow them.
pub decode-encode_move_params :
    (m : S2CMoveParams) (extra : List ℕ)
    → S2CMoveParamsFits m
    → decode_move_params (encode_move_params m ++ extra) ≡ exactly m extra
unfolding decode_move_params encode_move_params
decode-encode_move_params m extra h = decode_with-Reads extra (
    next _ (word 8 h.half_width) (
      next _ (word 8 h.height) (
        next _ (word 8 h.eye_height) (
          next _ (word 8 h.walk_speed) (
            next _ (word 8 h.sprint_speed) (
              next _ (word 8 h.accel) (
                next _ (word 8 h.air_accel) (
                  next _ (word 8 h.friction) (
                    next _ (word 8 h.gravity) (
                      next _ (word 8 h.jump_speed) (
                        next _ (word 8 h.terminal_velocity) (
                          next _ (word 8 h.step_height) (
                            next _ (word 8 h.fly_speed)
                              (next _ (boolean m.fly) (done _)))))))))))))))

-- The values that the wire format can carry.
pub record DayNightKeyframeRecordFits (m : DayNightKeyframeRecord) : Type 0 where
  pub tick : m.tick < 2 ^ 32
  pub brightness : m.brightness < 2 ^ 64
  pub r : m.r < 2 ^ 8
  pub g : m.g < 2 ^ 8
  pub b : m.b < 2 ^ 8

pub keyframe-Reads :
    (m : DayNightKeyframeRecord)
    → DayNightKeyframeRecordFits m
    → Reads read_keyframe (write_keyframe m) m
unfolding read_keyframe write_keyframe
keyframe-Reads m h = next _ (word 4 h.tick) (
    next _ (word 8 h.brightness)
      (next _ (word 1 h.r) (next _ (word 1 h.g) (next _ (word 1 h.b) (done _)))))

-- The values that the wire format can carry.
pub record S2CDayNightCurveFits (m : S2CDayNightCurve) : Type 0 where
  pub keyframes : All DayNightKeyframeRecordFits m.keyframes
  pub count_keyframes : length m.keyframes ≤ max_day_night_keyframes

-- `decode` gives back a message whose values fit the wire format from the bytes that `encode` wrote,
-- and answers trailing_bytes if more bytes follow them.
pub decode-encode_day_night_curve :
    (m : S2CDayNightCurve) (extra : List ℕ)
    → S2CDayNightCurveFits m
    → decode_day_night_curve (encode_day_night_curve m ++ extra) ≡ exactly m extra
unfolding decode_day_night_curve encode_day_night_curve
decode-encode_day_night_curve m extra h = decode_with-Reads extra (
    next _ (varint (omega arith)) (
      skip _ (reject_if-Reads _ _ (le→ltb _ _ h.count_keyframes)) (
        next _ (read_list-Reads DayNightKeyframeRecordFits _ _ keyframe-Reads _ h.keyframes)
          (done _))))

-- Without the flag the tint is the default, which is not sent.
abbrev pub TintFits : Bool → Tint → Type 0
TintFits true t = (t.r < 2 ^ 8) × (t.g < 2 ^ 8) × (t.b < 2 ^ 8)
TintFits false t = t ≡ no_tint

tint_if-Reads :
    (has : Bool) (t : Tint)
    → TintFits has t
    → Reads (if has then read_tint else ret no_tint) (write_tint_if has t) t
unfolding read_tint write_tint_if
tint_if-Reads true t h = next _ (word 1 h.0) (next _ (word 1 h.1) (next _ (word 1 h.2) (done _)))
tint_if-Reads false t h = subst (Reads (ret no_tint) []) (sym h) (done no_tint)

-- The values that the wire format can carry.
pub record S2CFogParamsFits (m : S2CFogParams) : Type 0 where
  pub fog_start : m.fog_start < 2 ^ 32
  pub fog_end : m.fog_end < 2 ^ 32
  pub underwater_tint : TintFits m.has_underwater_tint m.underwater_tint

-- `decode` gives back a message whose values fit the wire format from the bytes that `encode` wrote,
-- and answers trailing_bytes if more bytes follow them.
pub decode-encode_fog_params :
    (m : S2CFogParams) (extra : List ℕ)
    → S2CFogParamsFits m
    → decode_fog_params (encode_fog_params m ++ extra) ≡ exactly m extra
unfolding decode_fog_params encode_fog_params
decode-encode_fog_params m extra h = decode_with-Reads extra (
    next _ (word 4 h.fog_start) (
      next _ (word 4 h.fog_end) (
        next _ (boolean m.has_underwater_tint)
          (next _ (tint_if-Reads _ _ h.underwater_tint) (done _)))))
