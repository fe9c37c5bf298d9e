-- ===== src/Room.antt =====
-- room.h and client.h: the room and client structures, and the alphabets of room codes.
pub mod Code
use ynetserver_enet.Base.{ℕ, Bool, Bytes, bytes}
use ynetserver_enet.Base.Dict.{Dict}

-- A peer is the address of its `ENetPeer`; 0 is `nullptr`.
abbrev pub Peer : Type 0
Peer = ℕ

abbrev pub room_code_chars : Bytes
room_code_chars = bytes "ABCDEFRTPXZ9QHJYWKN123457"

abbrev pub room_code_chars_sq : Bytes
room_code_chars_sq = bytes "ZTQHJ1234579"

-- `max_players` is an `int` that only ever gets 4 or a positive value.
pub record Room : Type 0 where
  pub room_id : ℕ
  pub room_code : Bytes
  pub protocol : ℕ
  pub room_name : Bytes
  pub password : Bytes
  pub hashed_password : ℕ
  pub is_private : Bool
  pub can_host_migrate : Bool
  pub max_players : ℕ
  pub extra_info : Bytes
  pub host : Peer
  pub clients : Dict Peer ℕ

pub record Client : Type 0 where
  pub id : ℕ
  pub current_room : Bytes
  pub room_id : ℕ
  pub protocol_version : ℕ
  pub debugging : Bool
