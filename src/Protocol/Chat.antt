-- ===== src/Protocol/Chat.antt =====
-- inc/vb/protocol/chat.hpp and src/protocol/chat.cpp: chat lines, UI calls and the player list.
pub mod RoundTrip
use voxel_browser.Prelude.{
  ℕ, zero, suc, ◌+◌, ◌*◌, ◌^◌, ◌≤◌, ◌<◌, ◌≡◌, Bool, true, false, not, ◌||◌, ◌&&◌, Option, none,
  some, List, [], ◌∷◌, ◌++◌, map, ap, arith, ltb, leb, ◌==◌, if◌then◌else◌, le→ltb, length, All,
  refl,
}
use voxel_browser.Prelude.Int.{ℤ, InRange}
use voxel_browser.Protocol.ByteBuffer.{
  put_le, get_le, get_u8, put_boolean, get_boolean, put_varint, get_varint, put_string, get_string,
  get_bytes, max_decoded_length, length_exceeded, bad_enum, malformed, Reader, fail,
}
use voxel_browser.Protocol.ByteBuffer.Signed.{
  put_i32, get_i32, put_svarint, get_svarint_32, get_varint_32,
}
use voxel_browser.Protocol.Result.{
  Result, ok, err, Decoder, ◌>>=◌, ◌>>◌, ret, read, reject_if, reject_live_if, fail_live_if,
  read_list, read_capped, write_optional, read_optional, decode_with, concat,
}

abbrev pub max_player_list_entries : ℕ
max_player_list_entries = 4096

-- The field `text` is `line` here, and in S2CChat.
pub record C2SChat : Type 0 where
  pub line : List ℕ

unfoldable pub encode_client_chat : C2SChat → List ℕ
encode_client_chat m = concat (put_string m.line ∷ [])

unfoldable pub decode_client_chat : List ℕ → Result C2SChat
decode_client_chat =
    decode_with do line ← read (get_string max_decoded_length); ret (record { line = line })

pub record S2CChat : Type 0 where
  pub line : List ℕ

unfoldable pub encode_server_chat : S2CChat → List ℕ
encode_server_chat m = concat (put_string m.line ∷ [])

unfoldable pub decode_server_chat : List ℕ → Result S2CChat
decode_server_chat =
    decode_with do line ← read (get_string max_decoded_length); ret (record { line = line })

pub record S2COpenUi : Type 0 where
  pub ui_name : List ℕ
  pub ctx_json : List ℕ

unfoldable pub encode_open_ui : S2COpenUi → List ℕ
encode_open_ui m = concat (put_string m.ui_name ∷ put_string m.ctx_json ∷ [])

unfoldable pub decode_open_ui : List ℕ → Result S2COpenUi
decode_open_ui = decode_with do
  ui_name ← read (get_string max_decoded_length)
  ctx_json ← read (get_string max_decoded_length)
  ret (record { ui_name = ui_name; ctx_json = ctx_json })

pub record S2CPlayerJoin : Type 0 where
  pub net_id : ℕ
  pub name : List ℕ

unfoldable pub encode_player_join : S2CPlayerJoin → List ℕ
encode_player_join m = concat (put_le 4 m.net_id ∷ put_string m.name ∷ [])

unfoldable pub decode_player_join : List ℕ → Result S2CPlayerJoin
decode_player_join = decode_with do
  net_id ← read (get_le 4)
  name ← read (get_string max_decoded_length)
  ret (record { net_id = net_id; name = name })

pub record S2CPlayerLeave : Type 0 where
  pub net_id : ℕ

unfoldable pub encode_player_leave : S2CPlayerLeave → List ℕ
encode_player_leave m = concat (put_le 4 m.net_id ∷ [])

unfoldable pub decode_player_leave : List ℕ → Result S2CPlayerLeave
decode_player_leave = decode_with do net_id ← read (get_le 4); ret (record { net_id = net_id })

pub record PlayerListEntry : Type 0 where
  pub net_id : ℕ
  pub name : List ℕ

unfoldable pub write_player_list_entry : PlayerListEntry → List ℕ
write_player_list_entry m = concat (put_le 4 m.net_id ∷ put_string m.name ∷ [])

unfoldable pub read_player_list_entry : Decoder PlayerListEntry
read_player_list_entry = do
  net_id ← read (get_le 4)
  name ← read (get_string max_decoded_length)
  ret (record { net_id = net_id; name = name })

pub record S2CPlayerList : Type 0 where
  pub players : List PlayerListEntry

unfoldable pub encode_player_list : S2CPlayerList → List ℕ
encode_player_list m =
    concat (put_varint (length m.players) ∷ concat (map write_player_list_entry m.players) ∷ [])

unfoldable pub decode_player_list : List ℕ → Result S2CPlayerList
decode_player_list = decode_with do
  count_players ← read get_varint
  reject_if (ltb max_player_list_entries count_players) length_exceeded
  players ← read_list count_players read_player_list_entry
  ret (record { players = players })

pub record C2SUiEvent : Type 0 where
  pub ui_name : List ℕ
  pub widget_id : List ℕ
  pub event_kind : List ℕ
  pub value_json : List ℕ

unfoldable pub encode_ui_event : C2SUiEvent → List ℕ
encode_ui_event m = concat (
    put_string m.ui_name
    ∷ put_string m.widget_id
    ∷ put_string m.event_kind
    ∷ put_string m.value_json
    ∷ [])

unfoldable pub decode_ui_event : List ℕ → Result C2SUiEvent
decode_ui_event = decode_with do
  ui_name ← read (get_string max_decoded_length)
  widget_id ← read (get_string max_decoded_length)
  event_kind ← read (get_string max_decoded_length)
  value_json ← read (get_string max_decoded_length)
  ret (record {
    ui_name = ui_name;
    widget_id = widget_id;
    event_kind = event_kind;
    value_json = value_json;
  })
