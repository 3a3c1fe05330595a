-- ===== src/Protocol/Input/RoundTrip.antt =====
-- inc/vb/protocol/input.hpp and src/protocol/input.cpp: input batches and the keybind registry:
-- what a decoder makes of an encoder's bytes.
use voxel_browser.Prelude.{ℕ, ◌^◌, ◌≤◌, ◌<◌, ◌≡◌, List, ◌++◌, arith, le→ltb, length, All}
use voxel_browser.Protocol.ByteBuffer.{max_decoded_length}
use voxel_browser.Protocol.Result.Reads.{
  Reads, next, skip, done, exactly, decode_with-Reads, reject_if-Reads, read_list-Reads,
}
use voxel_browser.Protocol.Result.Fields.{word, varint, text}
use voxel_browser.Protocol.Input.{
  max_cmds, max_keybinds, InputCmd, write_input_cmd, read_input_cmd, C2SInputBatch,
  encode_input_batch, decode_input_batch, S2CKeybindRegistry, encode_keybind_registry,
  decode_keybind_registry,
}

-- The values that the wire format can carry.
pub record InputCmdFits (m : InputCmd) : Type 0 where
  pub seq : m.seq < 2 ^ 32
  pub dt : m.dt < 2 ^ 32
  pub move_x : m.move_x < 2 ^ 32
  pub move_y : m.move_y < 2 ^ 32
  pub move_z : m.move_z < 2 ^ 32
  pub yaw : m.yaw < 2 ^ 32
  pub pitch : m.pitch < 2 ^ 32
  pub buttons : m.buttons < 2 ^ 8
  pub keybinds : m.keybinds < 2 ^ 32
  pub selected_slot : m.selected_slot < 2 ^ 8

pub input_cmd-Reads : (m : InputCmd) → InputCmdFits m → Reads read_input_cmd (write_input_cmd m) m
unfolding read_input_cmd write_input_cmd
input_cmd-Reads m h = next _ (word 4 h.seq) (
    next _ (word 4 h.dt) (
      next _ (word 4 h.move_x) (
        next _ (word 4 h.move_y) (
          next _ (word 4 h.move_z) (
            next _ (word 4 h.yaw) (
              next _ (word 4 h.pitch) (
                next _ (word 1 h.buttons)
                  (next _ (word 4 h.keybinds) (next _ (word 1 h.selected_slot) (done _))))))))))

-- The values that the wire format can carry.
pub record C2SInputBatchFits (m : C2SInputBatch) : Type 0 where
  pub cmds : All InputCmdFits m.cmds
  pub count_cmds : length m.cmds ≤ max_cmds

-- `decode` gives back a message whose values fit the wire format from the bytes that `encode` wrote,
-- and answers trailing_bytes if more bytes follow them.
pub decode-encode_input_batch :
    (m : C2SInputBatch) (extra : List ℕ)
    → C2SInputBatchFits m
    → decode_input_batch (encode_input_batch m ++ extra) ≡ exactly m extra
unfolding decode_input_batch encode_input_batch
decode-encode_input_batch m extra h = decode_with-Reads extra (
    next _ (varint (omega arith)) (
      skip _ (reject_if-Reads _ _ (le→ltb _ _ h.count_cmds))
        (next _ (read_list-Reads InputCmdFits _ _ input_cmd-Reads _ h.cmds) (done _))))

-- The values that the wire format can carry.
pub record S2CKeybindRegistryFits (m : S2CKeybindRegistry) : Type 0 where
  pub names : All (λ s. length s ≤ max_decoded_length) m.names
  pub count_names : length m.names ≤ max_keybinds

-- `decode` gives back a message whose values fit the wire format from the bytes that `encode` wrote,
-- and answers trailing_bytes if more bytes follow them.
pub decode-encode_keybind_registry :
    (m : S2CKeybindRegistry) (extra : List ℕ)
    → S2CKeybindRegistryFits m
    → decode_keybind_registry (encode_keybind_registry m ++ extra) ≡ exactly m extra
unfolding decode_keybind_registry encode_keybind_registry
decode-encode_keybind_registry m extra h = decode_with-Reads extra (
    next _ (varint (omega arith)) (
      skip _ (reject_if-Reads _ _ (le→ltb _ _ h.count_names)) (
        next _ (read_list-Reads (λ s. length s ≤ max_decoded_length) _ _ (λ s k. text k) _ h.names)
          (done _))))
