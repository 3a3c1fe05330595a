-- ===== src/Protocol/Registry.antt =====
-- inc/vb/protocol/world.hpp and src/protocol/world.cpp: the tables and parameters that the server
-- sends while a client joins. A float or double is its bit pattern.
pub mod RoundTrip
use voxel_browser.Prelude.{
  ℕ, zero, suc, ◌+◌, ◌*◌, ◌^◌, ◌≤◌, ◌<◌, ◌≡◌, Bool, true, false, not, ◌||◌, ◌&&◌, Option, none,
  some, List, [], ◌∷◌, ◌++◌, map, ap, arith, ltb, leb, ◌==◌, if◌then◌else◌, le→ltb, length, All,
  refl,
}
use voxel_browser.Prelude.Int.{ℤ, InRange}
use voxel_browser.Protocol.ByteBuffer.{
  put_le, get_le, get_u8, put_boolean, get_boolean, put_varint, get_varint, put_string, get_string,
  get_bytes, max_decoded_length, length_exceeded, bad_enum, malformed, Reader, fail,
}
use voxel_browser.Protocol.ByteBuffer.Signed.{
  put_i32, get_i32, put_svarint, get_svarint_32, get_varint_32,
}
use voxel_browser.Protocol.Result.{
  Result, ok, err, Decoder, ◌>>=◌, ◌>>◌, ret, read, reject_if, reject_live_if, fail_live_if,
  read_list, read_capped, write_optional, read_optional, decode_with, concat,
}

abbrev pub max_block_registry_records : ℕ
max_block_registry_records = 4096

abbrev pub max_day_night_keyframes : ℕ
max_day_night_keyframes = 256

-- The field `opaque` is `is_opaque` here.
pub record BlockRegistryRecord : Type 0 where
  pub name : List ℕ
  pub solid : Bool
  pub is_opaque : Bool
  pub liquid : Bool
  pub light_emission : ℕ
  pub texture : List ℕ
  pub max_damage : ℕ
  pub crack_texture : List ℕ

unfoldable pub write_block_record : BlockRegistryRecord → List ℕ
write_block_record m = concat (
    put_string m.name
    ∷ put_boolean m.solid
    ∷ put_boolean m.is_opaque
    ∷ put_boolean m.liquid
    ∷ put_le 1 m.light_emission
    ∷ put_string m.texture
    ∷ put_le 2 m.max_damage
    ∷ put_string m.crack_texture
    ∷ [])

unfoldable pub read_block_record : Decoder BlockRegistryRecord
read_block_record = do
  name ← read (get_string max_decoded_length)
  solid ← read get_boolean
  is_opaque ← read get_boolean
  liquid ← read get_boolean
  light_emission ← read get_u8
  texture ← read (get_string max_decoded_length)
  max_damage ← read (get_le 2)
  crack_texture ← read (get_string max_decoded_length)
  ret (record {
    name = name;
    solid = solid;
    is_opaque = is_opaque;
    liquid = liquid;
    light_emission = light_emission;
    texture = texture;
    max_damage = max_damage;
    crack_texture = crack_texture;
  })

pub record S2CBlockRegistry : Type 0 where
  pub blocks : List BlockRegistryRecord

unfoldable pub encode_block_registry : S2CBlockRegistry → List ℕ
encode_block_registry m =
    concat (put_varint (length m.blocks) ∷ concat (map write_block_record m.blocks) ∷ [])

unfoldable pub decode_block_registry : List ℕ → Result S2CBlockRegistry
decode_block_registry = decode_with do
  count_blocks ← read get_varint
  reject_if (ltb max_block_registry_records count_blocks) length_exceeded
  blocks ← read_list count_blocks read_block_record
  ret (record { blocks = blocks })

pub record S2CMoveParams : Type 0 where
  pub half_width : ℕ
  pub height : ℕ
  pub eye_height : ℕ
  pub walk_speed : ℕ
  pub sprint_speed : ℕ
  pub accel : ℕ
  pub air_accel : ℕ
  pub friction : ℕ
  pub gravity : ℕ
  pub jump_speed : ℕ
  pub terminal_velocity : ℕ
  pub step_height : ℕ
  pub fly_speed : ℕ
  pub fly : Bool

unfoldable pub encode_move_params : S2CMoveParams → List ℕ
encode_move_params m = concat (
    put_le 8 m.half_width
    ∷ put_le 8 m.height
    ∷ put_le 8 m.eye_height
    ∷ put_le 8 m.walk_speed
    ∷ put_le 8 m.sprint_speed
    ∷ put_le 8 m.accel
    ∷ put_le 8 m.air_accel
    ∷ put_le 8 m.friction
    ∷ put_le 8 m.gravity
    ∷ put_le 8 m.jump_speed
    ∷ put_le 8 m.terminal_velocity
    ∷ put_le 8 m.step_height
    ∷ put_le 8 m.fly_speed
    ∷ put_boolean m.fly
    ∷ [])

unfoldable pub decode_move_params : List ℕ → Result S2CMoveParams
decode_move_params = decode_with do
  half_width ← read (get_le 8)
  height ← read (get_le 8)
  eye_height ← read (get_le 8)
  walk_speed ← read (get_le 8)
  sprint_speed ← read (get_le 8)
  accel ← read (get_le 8)
  air_accel ← read (get_le 8)
  friction ← read (get_le 8)
  gravity ← read (get_le 8)
  jump_speed ← read (get_le 8)
  terminal_velocity ← read (get_le 8)
  step_height ← read (get_le 8)
  fly_speed ← read (get_le 8)
  fly ← read get_boolean
  ret (record {
    half_width = half_width;
    height = height;
    eye_height = eye_height;
    walk_speed = walk_speed;
    sprint_speed = sprint_speed;
    accel = accel;
    air_accel = air_accel;
    friction = friction;
    gravity = gravity;
    jump_speed = jump_speed;
    terminal_velocity = terminal_velocity;
    step_height = step_height;
    fly_speed = fly_speed;
    fly = fly;
  })

pub record DayNightKeyframeRecord : Type 0 where
  pub tick : ℕ
  pub brightness : ℕ
  pub r : ℕ
  pub g : ℕ
  pub b : ℕ

unfoldable pub write_keyframe : DayNightKeyframeRecord → List ℕ
write_keyframe m =
    concat
      (put_le 4 m.tick ∷ put_le 8 m.brightness ∷ put_le 1 m.r ∷ put_le 1 m.g ∷ put_le 1 m.b ∷ [])

unfoldable pub read_keyframe : Decoder DayNightKeyframeRecord
read_keyframe = do
  tick ← read (get_le 4)
  brightness ← read (get_le 8)
  r ← read get_u8
  g ← read get_u8
  b ← read get_u8
  ret (record { tick = tick; brightness = brightness; r = r; g = g; b = b })

pub record S2CDayNightCurve : Type 0 where
  pub keyframes : List DayNightKeyframeRecord

unfoldable pub encode_day_night_curve : S2CDayNightCurve → List ℕ
encode_day_night_curve m =
    concat (put_varint (length m.keyframes) ∷ concat (map write_keyframe m.keyframes) ∷ [])

unfoldable pub decode_day_night_curve : List ℕ → Result S2CDayNightCurve
decode_day_night_curve = decode_with do
  count_keyframes ← read get_varint
  reject_if (ltb max_day_night_keyframes count_keyframes) length_exceeded
  keyframes ← read_list count_keyframes read_keyframe
  ret (record { keyframes = keyframes })

-- The three bytes of `underwater_tint_*`.
pub record Tint : Type 0 where
  pub r : ℕ
  pub g : ℕ
  pub b : ℕ

-- The field initialisers of S2CFogParams.
abbrev pub no_tint : Tint
no_tint = record { r = 0; g = 0; b = 0 }

unfoldable pub write_tint_if : Bool → Tint → List ℕ
write_tint_if true t = concat (put_le 1 t.r ∷ put_le 1 t.g ∷ put_le 1 t.b ∷ [])
write_tint_if false t = []

unfoldable pub read_tint : Decoder Tint
read_tint = do
  r ← read get_u8
  g ← read get_u8
  b ← read get_u8
  ret (record { r = r; g = g; b = b })

pub record S2CFogParams : Type 0 where
  pub fog_start : ℕ
  pub fog_end : ℕ
  pub has_underwater_tint : Bool
  pub underwater_tint : Tint

unfoldable pub encode_fog_params : S2CFogParams → List ℕ
encode_fog_params m = concat (
    put_le 4 m.fog_start
    ∷ put_le 4 m.fog_end
    ∷ put_boolean m.has_underwater_tint
    ∷ write_tint_if m.has_underwater_tint m.underwater_tint
    ∷ [])

unfoldable pub decode_fog_params : List ℕ → Result S2CFogParams
decode_fog_params = decode_with do
  fog_start ← read (get_le 4)
  fog_end ← read (get_le 4)
  has_underwater_tint ← read get_boolean
  underwater_tint ← (if has_underwater_tint then read_tint else ret no_tint)
  ret (record {
    fog_start = fog_start;
    fog_end = fog_end;
    has_underwater_tint = has_underwater_tint;
    underwater_tint = underwater_tint;
  })
