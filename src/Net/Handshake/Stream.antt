-- ===== src/Net/Handshake/Stream.antt =====
-- src/net/handshake.cpp: what the pumps of the server's machine send for a request of assets.
use voxel_browser.Prelude.{ℕ, ◌+◌, ◌≡◌, ◌⊎◌, List, [], ◌∷◌, ◌++◌, if◌then◌else◌, length}
use voxel_browser.Protocol.AssetSync.{AssetHash}
use voxel_browser.Protocol.Messages.{Message}
use voxel_browser.Net.Handshake.Server.{
  ServerHandshake, HandshakeServerHost, AssetStreamState, Reaction, streaming_assets,
  awaiting_ready, sends,
}
use voxel_browser.Net.Handshake.Assets.{advance_stream, all_sent, pump_loop, pump_assets}
use voxel_browser.Net.Handshake.Ahead.{Ahead}

module _ (host : HandshakeServerHost) (file : AssetHash → List ℕ) where
  -- The machine's messages for one pump after another, with these budgets.
  unfoldable pub pump_all : List ℕ → ServerHandshake → List Message × ServerHandshake
  pump_all [] s = ([], s)
  pump_all (budget ∷ budgets) s =
      let r = pump_assets budget host s in
      let after = pump_all budgets r.1 in (r.0.send ++ after.0, after.1)

  -- What a pump has sent of the messages before it, and what it leaves: nothing, and the stream is over,
  -- or what the budget does not allow.
  Pumped : ℕ → List Message → List Message → Reaction → Type 0
  Pumped budget queued out r =
      (sent : List Message) × (left : List Message) × (out ≡ sent ++ left)
      × (r.0 ≡ sends (queued ++ sent))
      × (((left ≡ []) × (r.1.state ≡ awaiting_ready))
          ⊎ ((length sent ≡ budget)
              × (r.1.state ≡ streaming_assets)
              × Ahead host file r.1.asset_stream left))

  module _ (budget : ℕ) (queued : List Message) (s : ServerHandshake) (h : AssetHash)
      (stream : AssetStreamState) where
    after_chunk : Message → ServerHandshake → Reaction
    after_chunk m s' =
        if all_sent (advance_stream stream)
        then (sends (queued ++ (m ∷ [])), record s' { state = awaiting_ready })
        else pump_loop budget host (queued ++ (m ∷ [])) s'

  -- The budgets, added up.
  abbrev pub sum : List ℕ → ℕ
  sum [] = 0
  sum (b ∷ bs) = b + sum bs
