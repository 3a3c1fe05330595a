-- ===== src/Protocol/Inventory.antt =====
-- inc/vb/protocol/inventory.hpp and src/protocol/inventory.cpp: a player's own inventory and status.
-- A float is its bit pattern.
pub mod RoundTrip
use voxel_browser.Prelude.{
  ℕ, zero, suc, ◌+◌, ◌*◌, ◌^◌, ◌≤◌, ◌<◌, ◌≡◌, Bool, true, false, not, ◌||◌, ◌&&◌, Option, none,
  some, List, [], ◌∷◌, ◌++◌, map, ap, arith, ltb, leb, ◌==◌, if◌then◌else◌, le→ltb, length, All,
  refl,
}
use voxel_browser.Prelude.Int.{ℤ, InRange}
use voxel_browser.Protocol.ByteBuffer.{
  put_le, get_le, get_u8, put_boolean, get_boolean, put_varint, get_varint, put_string, get_string,
  get_bytes, max_decoded_length, length_exceeded, bad_enum, malformed, Reader, fail,
}
use voxel_browser.Protocol.ByteBuffer.Signed.{
  put_i32, get_i32, put_svarint, get_svarint_32, get_varint_32,
}
use voxel_browser.Protocol.Result.{
  Result, ok, err, Decoder, ◌>>=◌, ◌>>◌, ret, read, reject_if, reject_live_if, fail_live_if,
  read_list, read_capped, write_optional, read_optional, decode_with, concat,
}

abbrev pub max_inventory_slots : ℕ
max_inventory_slots = 4096

pub record InventorySlot : Type 0 where
  pub item : ℕ
  pub count : ℕ

unfoldable pub write_inventory_slot : InventorySlot → List ℕ
write_inventory_slot m = concat (put_le 2 m.item ∷ put_le 2 m.count ∷ [])

unfoldable pub read_inventory_slot : Decoder InventorySlot
read_inventory_slot = do
  item ← read (get_le 2)
  count ← read (get_le 2)
  ret (record { item = item; count = count })

pub record S2CInventory : Type 0 where
  pub slots : List InventorySlot

unfoldable pub encode_inventory : S2CInventory → List ℕ
encode_inventory m =
    concat (put_varint (length m.slots) ∷ concat (map write_inventory_slot m.slots) ∷ [])

unfoldable pub decode_inventory : List ℕ → Result S2CInventory
decode_inventory = decode_with do
  count_slots ← read get_varint
  reject_if (ltb max_inventory_slots count_slots) length_exceeded
  slots ← read_list count_slots read_inventory_slot
  ret (record { slots = slots })

pub record S2CPlayerStatus : Type 0 where
  pub health : ℕ
  pub max_health : ℕ
  pub hunger : ℕ
  pub max_hunger : ℕ

unfoldable pub encode_player_status : S2CPlayerStatus → List ℕ
encode_player_status m =
    concat
      (put_le 4 m.health ∷ put_le 4 m.max_health ∷ put_le 4 m.hunger ∷ put_le 4 m.max_hunger ∷ [])

unfoldable pub decode_player_status : List ℕ → Result S2CPlayerStatus
decode_player_status = decode_with do
  health ← read (get_le 4)
  max_health ← read (get_le 4)
  hunger ← read (get_le 4)
  max_hunger ← read (get_le 4)
  ret (record {
    health = health;
    max_health = max_health;
    hunger = hunger;
    max_hunger = max_hunger;
  })
