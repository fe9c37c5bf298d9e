-- ===== src/Server/Undo.antt =====
-- ynetserver.cpp: operations of the server one after the other, and when its tables are back.
pub mod Connections
pub mod Creations
pub mod Joins
use ynetserver_enet.Base.{
  ℕ, ◌≡◌, none, false, true, Bytes, Option-cases, inl, inr, arith, nat_key, bytes_key,
}
use ynetserver_enet.Base.Dict.{lookup, contains}
use ynetserver_enet.Room.{Peer}
use ynetserver_enet.Room.Code.{is_valid_room_code}
use ynetserver_enet.Server.{Server}
use ynetserver_enet.Server.Invariant.{Inv}

-- The same clients, rooms and used ids.
pub record SameTables (s s' : Server) : Type 0 where
  pub clients : (p : Peer) → lookup p s'.clients ≡ lookup p s.clients
  pub rooms : (code : Bytes) → lookup code s'.rooms ≡ lookup code s.rooms
  pub client_ids : (id : ℕ) → contains id s'.used_client_ids ≡ contains id s.used_client_ids
  pub room_ids : (id : ℕ) → contains id s'.used_room_ids ≡ contains id s.used_room_ids

-- No room stands under a code that is not valid.
pub invalid-absent :
    (code : Bytes) (s : Server)
    → Inv s
    → is_valid_room_code code ≡ false
    → lookup code s.rooms ≡ none
invalid-absent code s inv bad = elim (Option-cases (lookup code s.rooms)) [
  | inl n ↦ n
  | inr (r, e) ↦ let good = inv.rooms.valid code r e in absurd (ground arith)
]
