-- ===== src/Protocol/Input.antt =====
-- inc/vb/protocol/input.hpp and src/protocol/input.cpp: input batches and the keybind registry.
-- A float is its bit pattern.
pub mod RoundTrip
use voxel_browser.Prelude.{
  ℕ, zero, suc, ◌+◌, ◌*◌, ◌^◌, ◌≤◌, ◌<◌, ◌≡◌, Bool, true, false, not, ◌||◌, ◌&&◌, Option, none,
  some, List, [], ◌∷◌, ◌++◌, map, ap, arith, ltb, leb, ◌==◌, if◌then◌else◌, le→ltb, length, All,
  refl,
}
use voxel_browser.Prelude.Int.{ℤ, InRange}
use voxel_browser.Protocol.ByteBuffer.{
  put_le, get_le, get_u8, put_boolean, get_boolean, put_varint, get_varint, put_string, get_string,
  get_bytes, max_decoded_length, length_exceeded, bad_enum, malformed, Reader, fail,
}
use voxel_browser.Protocol.ByteBuffer.Signed.{
  put_i32, get_i32, put_svarint, get_svarint_32, get_varint_32,
}
use voxel_browser.Protocol.Result.{
  Result, ok, err, Decoder, ◌>>=◌, ◌>>◌, ret, read, reject_if, reject_live_if, fail_live_if,
  read_list, read_capped, write_optional, read_optional, decode_with, concat,
}

abbrev pub max_cmds : ℕ
max_cmds = 64

abbrev pub max_keybinds : ℕ
max_keybinds = 32

pub record InputCmd : Type 0 where
  pub seq : ℕ
  pub dt : ℕ
  pub move_x : ℕ
  pub move_y : ℕ
  pub move_z : ℕ
  pub yaw : ℕ
  pub pitch : ℕ
  pub buttons : ℕ
  pub keybinds : ℕ
  pub selected_slot : ℕ

unfoldable pub write_input_cmd : InputCmd → List ℕ
write_input_cmd m = concat (
    put_le 4 m.seq
    ∷ put_le 4 m.dt
    ∷ put_le 4 m.move_x
    ∷ put_le 4 m.move_y
    ∷ put_le 4 m.move_z
    ∷ put_le 4 m.yaw
    ∷ put_le 4 m.pitch
    ∷ put_le 1 m.buttons
    ∷ put_le 4 m.keybinds
    ∷ put_le 1 m.selected_slot
    ∷ [])

unfoldable pub read_input_cmd : Decoder InputCmd
read_input_cmd = do
  seq ← read (get_le 4)
  dt ← read (get_le 4)
  move_x ← read (get_le 4)
  move_y ← read (get_le 4)
  move_z ← read (get_le 4)
  yaw ← read (get_le 4)
  pitch ← read (get_le 4)
  buttons ← read get_u8
  keybinds ← read (get_le 4)
  selected_slot ← read get_u8
  ret (record {
    seq = seq;
    dt = dt;
    move_x = move_x;
    move_y = move_y;
    move_z = move_z;
    yaw = yaw;
    pitch = pitch;
    buttons = buttons;
    keybinds = keybinds;
    selected_slot = selected_slot;
  })

pub record C2SInputBatch : Type 0 where
  pub cmds : List InputCmd

unfoldable pub encode_input_batch : C2SInputBatch → List ℕ
encode_input_batch m =
    concat (put_varint (length m.cmds) ∷ concat (map write_input_cmd m.cmds) ∷ [])

unfoldable pub decode_input_batch : List ℕ → Result C2SInputBatch
decode_input_batch = decode_with do
  count_cmds ← read get_varint
  reject_if (ltb max_cmds count_cmds) length_exceeded
  cmds ← read_list count_cmds read_input_cmd
  ret (record { cmds = cmds })

pub record S2CKeybindRegistry : Type 0 where
  pub names : List (List ℕ)

unfoldable pub encode_keybind_registry : S2CKeybindRegistry → List ℕ
encode_keybind_registry m =
    concat (put_varint (length m.names) ∷ concat (map put_string m.names) ∷ [])

unfoldable pub decode_keybind_registry : List ℕ → Result S2CKeybindRegistry
decode_keybind_registry = decode_with do
  count_names ← read get_varint
  reject_if (ltb max_keybinds count_names) length_exceeded
  names ← read_list count_names (read (get_string max_decoded_length))
  ret (record { names = names })
