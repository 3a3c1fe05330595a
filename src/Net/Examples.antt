-- ===== src/Net/Examples.antt =====
-- The theorems of the net layer at concrete messages and sequences of events.
use voxel_browser.Prelude.{
  ℕ, true, false, refl, ◌++◌, ◌+◌, ◌≤◌, ◌≡◌, none, some, [], ◌∷◌, length, replicate, arith, ltb,
}
use voxel_browser.Protocol.ByteBuffer.{put_le, put_varint, put_varint_loop}
use voxel_browser.Protocol.Result.{ok}
use voxel_browser.Protocol.Message.{max_payload_bytes}
use voxel_browser.Protocol.AssetSync.{encode_asset_data, write_hash}
use voxel_browser.Protocol.Messages.{Message, asset_data, message_type, encode_message}
use voxel_browser.Protocol.Examples.{zeros_lz4, zeros_lz4_laws, far_block}
use voxel_browser.Net.Envelope.{frame_message}
use voxel_browser.Net.Delivery.{receive_message, receive_message-frame_message}
use voxel_browser.Net.BlockDamageTracker.{Clock, BlockDamageTracker}
use voxel_browser.Core.Ids.{chunk_of}
use voxel_browser.Prelude.{List}
use voxel_browser.Net.BlockDamageTracker.{on_chunk_removed}
use voxel_browser.Net.BlockDamageTracker.Pairing.{
  Matched, Operation, damage, block_changed, advanced, apply_all, new_tracker, new_tracker-Matched,
  on_chunk_removed-new_tracker,
}
use voxel_browser.Net.BlockDamageTracker.Lanes.{
  cell, damaged, changed, deliver_all, end, next_damage, next_change, deliver_all-Merge,
}
use voxel_browser.Net.Loopback.{Link, Hub, LoopbackTransport, find, new_link}
use voxel_browser.Net.Loopback.Links.{events_of}
use voxel_browser.Net.Loopback.History.{
  Action, sends, closes, polls, act_all, put_all, act_all-put_all,
}
use voxel_browser.Protocol.Message.{Lane}

abbrev zeros : Message
zeros = asset_data (record {
  hash = record { lo = 0; hi = 0 };
  seq = 0;
  total_chunks = 1;
  chunk = replicate 130 0;
})

zeros_small : length (encode_message zeros) ≤ max_payload_bytes
unfolding encode_message encode_asset_data write_hash put_le put_varint put_varint_loop
zeros_small = omega arith

receive_message-frame_message_example :
    receive_message zeros_lz4
      (frame_message zeros_lz4 (message_type zeros) (encode_message zeros) 0).bytes
    ≡ some (ok zeros)
receive_message-frame_message_example =
    receive_message-frame_message zeros_lz4 zeros zeros_lz4_laws
      record {
        hash = record { lo = omega arith; hi = omega arith };
        seq = omega arith;
        total_chunks = omega arith;
        chunk = omega arith;
      }
      zeros_small

-- Time in whole seconds, records kept for 10 of them.
abbrev seconds : Clock
seconds = record {
  Time = ℕ;
  later = λ now dt. now + dt;
  before = ltb;
  forget_after = λ now. now + 10;
  expired = λ now at. ltb (at + 10) now;
}

abbrev fresh : BlockDamageTracker seconds
fresh = record {
  punches = λ p. none;
  damage_revision = λ p. none;
  changes = λ p. none;
  now = 5;
  next_prune = 0;
}

deliver_all-Merge_example :
    cell seconds
      (deliver_all seconds
        (damaged far_block 1 3 ∷ changed far_block 4 ∷ damaged far_block 2 3 ∷ [])
        fresh)
      far_block
    ≡ cell seconds
        (deliver_all seconds
          (changed far_block 4 ∷ [])
          (deliver_all seconds (damaged far_block 1 3 ∷ damaged far_block 2 3 ∷ []) fresh))
        far_block
deliver_all-Merge_example =
    deliver_all-Merge seconds fresh far_block
      (next_damage far_block 1 3 (next_change far_block 4 (next_damage far_block 2 3 end))) tt

abbrev some_operations : List (Operation seconds)
some_operations =
    damage far_block 2 5 ∷ advanced 3 ∷ block_changed far_block 6 ∷ damage far_block 1 6 ∷ []

new_tracker-Matched_example :
    Matched seconds (apply_all seconds some_operations (new_tracker seconds 0 30))
new_tracker-Matched_example = new_tracker-Matched seconds some_operations 0 30

on_chunk_removed-new_tracker_example :
    let t : BlockDamageTracker seconds =
      on_chunk_removed seconds
        (chunk_of far_block)
        (apply_all seconds some_operations (new_tracker seconds 0 30)) in
    (t.punches far_block ≡ none)
    × (t.damage_revision far_block ≡ none)
    × (t.changes far_block ≡ none)
on_chunk_removed-new_tracker_example =
    on_chunk_removed-new_tracker seconds some_operations 0 30 far_block

-- A hub with one connection, the two ends of it, and a frame before the connection is closed.
abbrev hub : Hub
hub = record { listening = true; next_id = 2; links = new_link 1 ∷ [] }

abbrev server_end : LoopbackTransport
server_end = record { server = true; owned = [] }

abbrev client_end : LoopbackTransport
client_end = record { server = false; owned = 1 ∷ [] }

abbrev session : List Action
session =
    sends client_end 1 Lane.input (9 ∷ [])
    ∷ polls server_end
    ∷ closes 1 []
    ∷ sends client_end 1 Lane.input []
    ∷ []

act_all-put_all_example :
    (l : Link) × (find 1 (act_all session hub).1.links ≡ some l)
    × (events_of 1 (act_all session hub).0 ++ l.to_server
        ≡ (new_link 1).to_server ++ put_all 1 false session)
unfolding find
act_all-put_all_example =
    act_all-put_all 1 session (new_link 1) hub (omega arith, (refl, tt), omega arith) refl
