-- ===== src/Server.antt =====
-- ynetserver.h: the state of `YNetServer`, and the calls that it makes to ENet.
pub mod Send
pub mod Ends
pub mod Yields
pub mod Invariant
pub mod Ids
pub mod Create
pub mod Join
pub mod Leave
pub mod Settings
pub mod Relay
pub mod Info
pub mod Dispatch
pub mod Run
pub mod SetUp
pub mod Status
pub mod Directory
pub mod Liveness
pub mod Undo
use ynetserver_enet.Base.{ℕ, List, [], ◌∷◌, ◌++◌, Option, Bytes, nat_key, bytes_key}
use ynetserver_enet.Base.Dict.{Dict, lookup, assign}
use ynetserver_enet.Message.{AnyMessage}
use ynetserver_enet.Room.{Peer, Room, Client}
use ynetserver_enet.Room.Code.{Random}

-- The members. A `Client*` is kept by value: `clients` alone owns each object, so an object is
-- the one under its peer.
pub record Server : Type 0 where
  pub clients : Dict Peer Client
  pub rooms : Dict Bytes Room
  pub rooms_by_id : Dict ℕ Bytes
  pub used_room_ids : List ℕ
  pub next_room_id : ℕ
  pub used_client_ids : List ℕ
  pub next_client_id : ℕ

-- What the server asks of ENet: a packet with its peer, channel and flags; the raw bytes that are
-- sent back after an error; a disconnection that waits for the queued packets.
pub data Effect : Type 0 where
  sends : Peer → ℕ → ℕ → AnyMessage → Effect
  echoes : Peer → Bytes → Effect
  disconnects : Peer → Effect

-- The server, the random engines, and the effects so far, oldest first.
pub record World : Type 0 where
  pub server : Server
  pub open server use *
  pub random : Random
  pub effects : List Effect

abbrev pub start : Random → World
start r = record {
  server = record {
    clients = [];
    rooms = [];
    rooms_by_id = [];
    used_room_ids = [];
    next_room_id = 1000;
    used_client_ids = [];
    next_client_id = 1000;
  };
  random = r;
  effects = [];
}

unfoldable pub emit : Effect → World → World
emit e w = record w { effects = w.effects ++ e ∷ [] }

unfoldable pub get_client_for_peer : Peer → World → Option Client
get_client_for_peer peer w = lookup peer w.clients

-- A write through a `Client*`.
unfoldable pub set_client : Peer → Client → World → World
set_client peer c w = record w { server = record (w.server) { clients = assign peer c w.clients } }

-- A write through a `Room&`.
unfoldable pub set_room : Bytes → Room → World → World
set_room code r w = record w { server = record (w.server) { rooms = assign code r w.rooms } }
