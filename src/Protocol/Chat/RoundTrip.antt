-- ===== src/Protocol/Chat/RoundTrip.antt =====
-- inc/vb/protocol/chat.hpp and src/protocol/chat.cpp: chat lines, UI calls and the player list:
-- what a decoder makes of an encoder's bytes.
use voxel_browser.Prelude.{ℕ, ◌^◌, ◌≤◌, ◌<◌, ◌≡◌, List, ◌++◌, arith, le→ltb, length, All}
use voxel_browser.Protocol.ByteBuffer.{max_decoded_length}
use voxel_browser.Protocol.Result.Reads.{
  Reads, next, skip, done, exactly, decode_with-Reads, reject_if-Reads, read_list-Reads,
}
use voxel_browser.Protocol.Result.Fields.{word, varint, text}
use voxel_browser.Protocol.Chat.{
  max_player_list_entries, C2SChat, encode_client_chat, decode_client_chat, S2CChat,
  encode_server_chat, decode_server_chat, S2COpenUi, encode_open_ui, decode_open_ui, S2CPlayerJoin,
  encode_player_join, decode_player_join, S2CPlayerLeave, encode_player_leave, decode_player_leave,
  PlayerListEntry, write_player_list_entry, read_player_list_entry, S2CPlayerList,
  encode_player_list, decode_player_list, C2SUiEvent, encode_ui_event, decode_ui_event,
}

-- The values that the wire format can carry.
pub record C2SChatFits (m : C2SChat) : Type 0 where
  pub line : length m.line ≤ max_decoded_length

-- `decode` gives back a message whose values fit the wire format from the bytes that `encode` wrote,
-- and answers trailing_bytes if more bytes follow them.
pub decode-encode_client_chat :
    (m : C2SChat) (extra : List ℕ)
    → C2SChatFits m
    → decode_client_chat (encode_client_chat m ++ extra) ≡ exactly m extra
unfolding decode_client_chat encode_client_chat
decode-encode_client_chat m extra h = decode_with-Reads extra (next _ (text h.line) (done _))

-- The values that the wire format can carry.
pub record S2CChatFits (m : S2CChat) : Type 0 where
  pub line : length m.line ≤ max_decoded_length

-- `decode` gives back a message whose values fit the wire format from the bytes that `encode` wrote,
-- and answers trailing_bytes if more bytes follow them.
pub decode-encode_server_chat :
    (m : S2CChat) (extra : List ℕ)
    → S2CChatFits m
    → decode_server_chat (encode_server_chat m ++ extra) ≡ exactly m extra
unfolding decode_server_chat encode_server_chat
decode-encode_server_chat m extra h = decode_with-Reads extra (next _ (text h.line) (done _))

-- The values that the wire format can carry.
pub record S2COpenUiFits (m : S2COpenUi) : Type 0 where
  pub ui_name : length m.ui_name ≤ max_decoded_length
  pub ctx_json : length m.ctx_json ≤ max_decoded_length

-- `decode` gives back a message whose values fit the wire format from the bytes that `encode` wrote,
-- and answers trailing_bytes if more bytes follow them.
pub decode-encode_open_ui :
    (m : S2COpenUi) (extra : List ℕ)
    → S2COpenUiFits m
    → decode_open_ui (encode_open_ui m ++ extra) ≡ exactly m extra
unfolding decode_open_ui encode_open_ui
decode-encode_open_ui m extra h =
    decode_with-Reads extra (next _ (text h.ui_name) (next _ (text h.ctx_json) (done _)))

-- The values that the wire format can carry.
pub record S2CPlayerJoinFits (m : S2CPlayerJoin) : Type 0 where
  pub net_id : m.net_id < 2 ^ 32
  pub name : length m.name ≤ max_decoded_length

-- `decode` gives back a message whose values fit the wire format from the bytes that `encode` wrote,
-- and answers trailing_bytes if more bytes follow them.
pub decode-encode_player_join :
    (m : S2CPlayerJoin) (extra : List ℕ)
    → S2CPlayerJoinFits m
    → decode_player_join (encode_player_join m ++ extra) ≡ exactly m extra
unfolding decode_player_join encode_player_join
decode-encode_player_join m extra h =
    decode_with-Reads extra (next _ (word 4 h.net_id) (next _ (text h.name) (done _)))

-- The values that the wire format can carry.
pub record S2CPlayerLeaveFits (m : S2CPlayerLeave) : Type 0 where
  pub net_id : m.net_id < 2 ^ 32

-- `decode` gives back a message whose values fit the wire format from the bytes that `encode` wrote,
-- and answers trailing_bytes if more bytes follow them.
pub decode-encode_player_leave :
    (m : S2CPlayerLeave) (extra : List ℕ)
    → S2CPlayerLeaveFits m
    → decode_player_leave (encode_player_leave m ++ extra) ≡ exactly m extra
unfolding decode_player_leave encode_player_leave
decode-encode_player_leave m extra h = decode_with-Reads extra (next _ (word 4 h.net_id) (done _))

-- The values that the wire format can carry.
pub record PlayerListEntryFits (m : PlayerListEntry) : Type 0 where
  pub net_id : m.net_id < 2 ^ 32
  pub name : length m.name ≤ max_decoded_length

pub player_list_entry-Reads :
    (m : PlayerListEntry)
    → PlayerListEntryFits m
    → Reads read_player_list_entry (write_player_list_entry m) m
unfolding read_player_list_entry write_player_list_entry
player_list_entry-Reads m h = next _ (word 4 h.net_id) (next _ (text h.name) (done _))

-- The values that the wire format can carry.
pub record S2CPlayerListFits (m : S2CPlayerList) : Type 0 where
  pub players : All PlayerListEntryFits m.players
  pub count_players : length m.players ≤ max_player_list_entries

-- `decode` gives back a message whose values fit the wire format from the bytes that `encode` wrote,
-- and answers trailing_bytes if more bytes follow them.
pub decode-encode_player_list :
    (m : S2CPlayerList) (extra : List ℕ)
    → S2CPlayerListFits m
    → decode_player_list (encode_player_list m ++ extra) ≡ exactly m extra
unfolding decode_player_list encode_player_list
decode-encode_player_list m extra h = decode_with-Reads extra (
    next _ (varint (omega arith)) (
      skip _ (reject_if-Reads _ _ (le→ltb _ _ h.count_players)) (
        next _ (read_list-Reads PlayerListEntryFits _ _ player_list_entry-Reads _ h.players)
          (done _))))

-- The values that the wire format can carry.
pub record C2SUiEventFits (m : C2SUiEvent) : Type 0 where
  pub ui_name : length m.ui_name ≤ max_decoded_length
  pub widget_id : length m.widget_id ≤ max_decoded_length
  pub event_kind : length m.event_kind ≤ max_decoded_length
  pub value_json : length m.value_json ≤ max_decoded_length

-- `decode` gives back a message whose values fit the wire format from the bytes that `encode` wrote,
-- and answers trailing_bytes if more bytes follow them.
pub decode-encode_ui_event :
    (m : C2SUiEvent) (extra : List ℕ)
    → C2SUiEventFits m
    → decode_ui_event (encode_ui_event m ++ extra) ≡ exactly m extra
unfolding decode_ui_event encode_ui_event
decode-encode_ui_event m extra h = decode_with-Reads extra (
    next _ (text h.ui_name) (
      next _ (text h.widget_id) (next _ (text h.event_kind) (next _ (text h.value_json) (done _)))))
