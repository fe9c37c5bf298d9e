-- ===== src/Server/Invariant.antt =====
-- The invariant of the server's state.
pub mod Rooms
pub mod Clients
pub mod Stable
pub mod Creates
pub mod Joins
pub mod Leaves
pub mod Settings
pub mod Receives
pub mod Runs
use ynetserver_enet.Base.Distinct.{Distinct}
use ynetserver_enet.Base.{
  List, ℕ, ◌≤◌, ◌<◌, ◌≡◌, true, Bool, Option, none, some, Bytes, nat_key, bytes_key, ◌⊎◌, inl, inr,
  arith,
}
use ynetserver_enet.Base.Dict.{Dict, lookup, has, contains}
use ynetserver_enet.Room.{Peer, Room, Client}
use ynetserver_enet.Room.Code.{is_valid_room_code}
use ynetserver_enet.Server.{Server}

-- No code stands twice. Every room stands under its own code, which is valid; its host is one of its members; its id is
-- marked as used, and no other room has it. While the host of the room `gap` leaves, that room is
-- excused from having its host among its members.
pub record RoomsOk (gap : Option Bytes) (rooms : Dict Bytes Room) (used : List ℕ) : Type 0 where
  pub distinct : Distinct rooms
  pub keyed : (code : Bytes) (r : Room) → lookup code rooms ≡ some r → r.room_code ≡ code
  pub valid :
      (code : Bytes) (r : Room) → lookup code rooms ≡ some r → is_valid_room_code code ≡ true
  pub hosted :
      (code : Bytes) (r : Room)
      → lookup code rooms ≡ some r
      → (gap ≡ some code) ⊎ (has r.host r.clients ≡ true)
  pub id_used :
      (code : Bytes) (r : Room) → lookup code rooms ≡ some r → contains r.room_id used ≡ true
  pub id_distinct :
      (c d : Bytes) (r q : Room)
      → lookup c rooms ≡ some r
      → lookup d rooms ≡ some q
      → r.room_id ≡ q.room_id
      → c ≡ d

-- Every client has an id from 1000 on that is marked as used, and no other client has it.
pub record ClientsOk (clients : Dict Peer Client) (used : List ℕ) : Type 0 where
  pub id_used : (p : Peer) (c : Client) → lookup p clients ≡ some c → contains c.id used ≡ true
  pub id_range :
      (p : Peer) (c : Client) → lookup p clients ≡ some c → (1000 ≤ c.id) × (c.id ≤ 65535)
  pub id_distinct :
      (p q : Peer) (c d : Client)
      → lookup p clients ≡ some c
      → lookup q clients ≡ some d
      → c.id ≡ d.id
      → p ≡ q

pub record Inv (s : Server) : Type 0 where
  pub rooms : RoomsOk none s.rooms s.used_room_ids
  pub clients : ClientsOk s.clients s.used_client_ids
  pub next_room : s.next_room_id < 65536
  pub next_client : (1000 ≤ s.next_client_id) × (s.next_client_id ≤ 65535)

-- The host of a room is one of its members.
pub Inv-hosted :
    {s : Server} (code : Bytes) (room : Room)
    → Inv s
    → lookup code s.rooms ≡ some room
    → has room.host room.clients ≡ true
Inv-hosted code room inv here = elim (inv.rooms.hosted code room here) [
  | inl gap ↦ absurd (ground arith)
  | inr h ↦ h
]
