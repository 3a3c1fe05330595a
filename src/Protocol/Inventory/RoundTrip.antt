-- ===== src/Protocol/Inventory/RoundTrip.antt =====
-- inc/vb/protocol/inventory.hpp and src/protocol/inventory.cpp: a player's own inventory and
-- status: what a decoder makes of an encoder's bytes.
use voxel_browser.Prelude.{ℕ, ◌^◌, ◌≤◌, ◌<◌, ◌≡◌, List, ◌++◌, arith, le→ltb, length, All}
use voxel_browser.Protocol.Result.Reads.{
  Reads, next, skip, done, exactly, decode_with-Reads, reject_if-Reads, read_list-Reads,
}
use voxel_browser.Protocol.Result.Fields.{word, varint}
use voxel_browser.Protocol.Inventory.{
  max_inventory_slots, InventorySlot, write_inventory_slot, read_inventory_slot, S2CInventory,
  encode_inventory, decode_inventory, S2CPlayerStatus, encode_player_status, decode_player_status,
}

-- The values that the wire format can carry.
pub record InventorySlotFits (m : InventorySlot) : Type 0 where
  pub item : m.item < 2 ^ 16
  pub count : m.count < 2 ^ 16

pub inventory_slot-Reads :
    (m : InventorySlot) → InventorySlotFits m → Reads read_inventory_slot (write_inventory_slot m) m
unfolding read_inventory_slot write_inventory_slot
inventory_slot-Reads m h = next _ (word 2 h.item) (next _ (word 2 h.count) (done _))

-- The values that the wire format can carry.
pub record S2CInventoryFits (m : S2CInventory) : Type 0 where
  pub slots : All InventorySlotFits m.slots
  pub count_slots : length m.slots ≤ max_inventory_slots

-- `decode` gives back a message whose values fit the wire format from the bytes that `encode` wrote,
-- and answers trailing_bytes if more bytes follow them.
pub decode-encode_inventory :
    (m : S2CInventory) (extra : List ℕ)
    → S2CInventoryFits m
    → decode_inventory (encode_inventory m ++ extra) ≡ exactly m extra
unfolding decode_inventory encode_inventory
decode-encode_inventory m extra h = decode_with-Reads extra (
    next _ (varint (omega arith)) (
      skip _ (reject_if-Reads _ _ (le→ltb _ _ h.count_slots))
        (next _ (read_list-Reads InventorySlotFits _ _ inventory_slot-Reads _ h.slots) (done _))))

-- The values that the wire format can carry.
pub record S2CPlayerStatusFits (m : S2CPlayerStatus) : Type 0 where
  pub health : m.health < 2 ^ 32
  pub max_health : m.max_health < 2 ^ 32
  pub hunger : m.hunger < 2 ^ 32
  pub max_hunger : m.max_hunger < 2 ^ 32

-- `decode` gives back a message whose values fit the wire format from the bytes that `encode` wrote,
-- and answers trailing_bytes if more bytes follow them.
pub decode-encode_player_status :
    (m : S2CPlayerStatus) (extra : List ℕ)
    → S2CPlayerStatusFits m
    → decode_player_status (encode_player_status m ++ extra) ≡ exactly m extra
unfolding decode_player_status encode_player_status
decode-encode_player_status m extra h = decode_with-Reads extra (
    next _ (word 4 h.health) (
      next _ (word 4 h.max_health)
        (next _ (word 4 h.hunger) (next _ (word 4 h.max_hunger) (done _)))))
