-- ===== src/Server/Liveness.antt =====
-- ynetserver.cpp: the state and the events that keep `run` going.
pub mod Players
pub mod Enters
pub mod Sends
pub mod Served
use ynetserver_enet.Base.{
  ℕ, ◌≤◌, ◌<◌, ◌≡◌, [], ◌∷◌, List, Option, some, none, false, Bytes, length, nat_key, bytes_key,
}
use ynetserver_enet.Base.Dict.{Dict, lookup, contains}
use ynetserver_enet.Stream.{Stream}
use ynetserver_enet.Message.{AnyMessage, MessageType, rpc, text, packet, type_of, get_room_list}
use ynetserver_enet.Message.Parse.{deserialize}
use ynetserver_enet.Room.{Peer, Room, Client}
use ynetserver_enet.Server.{Server, World}
use ynetserver_enet.Server.Info.{
  Json, from_json, listed_rooms, page, room_list_json, room_info_json,
}
use ynetserver_enet.Server.Dispatch.{text_in}
use ynetserver_enet.Server.Run.{Event, connect, receive, disconnect, disconnect_timeout}
use ynetserver_enet.Server.Invariant.{Inv}

-- The ids of members are 16-bit numbers.
abbrev pub SmallIds : Dict Peer ℕ → Type 0
SmallIds [] = Unit
SmallIds ((p, id) ∷ members) = (id < 65536) × SmallIds members

-- At most as many members as the host takes connections, and an info that can be sent.
pub record SmallRoom (r : Room) : Type 0 where
  pub few : length r.clients ≤ 4000
  pub ids : SmallIds r.clients
  pub info : length (room_info_json r) ≤ 60000

-- The invariant holds, a room id is free, and the rooms are small.
pub record Live (s : Server) : Type 0 where
  pub inv : Inv s
  pub room_id : ℕ
  pub in_range : room_id < 65536
  pub unused : contains room_id s.used_room_ids ≡ false
  pub small : (code : Bytes) (r : Room) → lookup code s.rooms ≡ some r → SmallRoom r

-- A text, an RPC and a packet that the server can send on.
abbrev pub Modest : AnyMessage → Type 0
Modest (text t s) = length s ≤ 60000
Modest (rpc t k b) = (k < 65536) × (length b ≤ 33)
Modest (packet p) = (p.channel < 256) × (p.reliability_flags < 256) × (length p.packet_data ≤ 60000)
Modest _ = Unit

-- What a list of rooms needs to be sent: the page lies within the rooms, and its text is short.
abbrev pub Listable : ⦃json : Json⦄ → Client → Bytes → Server → Type 0
Listable client filters s =
    let f = from_json filters in
    let matching = listed_rooms f client.protocol_version s.rooms in
    (rooms : List Room) × (page f matching ≡ some rooms)
    × (length (room_list_json (length matching) rooms) ≤ 60000)

-- A client id is free; the peer is known, and its packet is read as a modest message, with a list
-- that can be sent if it asks for one; the peer is known.
abbrev pub Serviceable : ⦃io : Stream⦄ → ⦃json : Json⦄ → Event → Server → Type 0
Serviceable (connect peer protocol) s =
    (id : ℕ) × (1000 ≤ id) × (id ≤ 65535) × (contains id s.used_client_ids ≡ false)
Serviceable (receive peer []) s = ⊥
Serviceable (receive peer (c ∷ b)) s =
    (client : Client) × (m : AnyMessage) × (lookup peer s.clients ≡ some client)
    × (deserialize (c ∷ b) ≡ some m)
    × Modest m
    × (type_of c ≡ some get_room_list
        → (filters : Bytes) → text_in m ≡ some filters
        → Listable client filters s)
Serviceable (disconnect peer) s = (client : Client) × (lookup peer s.clients ≡ some client)
Serviceable (disconnect_timeout peer) s = (client : Client) × (lookup peer s.clients ≡ some client)
