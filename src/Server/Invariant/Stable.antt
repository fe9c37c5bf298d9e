-- ===== src/Server/Invariant/Stable.antt =====
-- What every handler of a client's message keeps, from the state at which it starts.
use ynetserver_enet.Base.{
  ◌<◌, ◌≡◌, ◌≢◌, ◌⊎◌, refl, sym, ◌∙◌, true, Option, none, some, Bytes, nat_key, bytes_key, inl, inr,
  arith, Option-cases,
}
use ynetserver_enet.Base.Dict.{lookup, has}
use ynetserver_enet.Room.{Peer, Room, Client}
use ynetserver_enet.Server.{Server, World, set_client, set_room, get_client_for_peer}
use ynetserver_enet.Server.Leave.{remove_room, clear_client, forget_room}
use ynetserver_enet.Server.Invariant.{RoomsOk, Inv}
use ynetserver_enet.Server.Invariant.Rooms.{RoomsOk-assign, RoomsOk-erase}
use ynetserver_enet.Server.Invariant.Clients.{id_of, SameIds, ClientsOk-same, assign-SameIds}

-- The rooms are in order but for the gap; clients keep their ids; the bookkeeping of client ids
-- is untouched.
pub record Stable (s₀ : Server) (gap : Option Bytes) (s : Server) : Type 0 where
  pub rooms : RoomsOk gap s.rooms s.used_room_ids
  pub ids : SameIds s.clients s₀.clients
  pub used : s.used_client_ids ≡ s₀.used_client_ids
  pub next_client : s.next_client_id ≡ s₀.next_client_id
  pub next_room : s.next_room_id < 65536

pub Inv-Stable : {s : Server} → Inv s → Stable s none s
Inv-Stable inv = record {
  rooms = inv.rooms;
  ids = λ p. refl;
  used = refl;
  next_client = refl;
  next_room = inv.next_room;
}

pub Stable-Inv : {s₀ s : Server} → Inv s₀ → Stable s₀ none s → Inv s
Stable-Inv {s₀} {s} inv st = record {
  rooms = st.rooms;
  clients = rw st.used (ClientsOk-same inv.clients st.ids);
  next_room = st.next_room;
  next_client = rw st.next_client inv.next_client;
}

module _ {s₀ : Server} {gap : Option Bytes} where
  -- A write to a client that keeps its id.
  pub set_client-Stable :
      (p : Peer) (c : Client) (w : World)
      → id_of p s₀.clients ≡ some c.id
      → Stable s₀ gap w.server
      → Stable s₀ gap (set_client p c w).server
  unfolding set_client
  set_client-Stable p c w known st = record {
    rooms = st.rooms;
    ids = λ q. assign-SameIds w.clients p c (st.ids p ∙ known) q ∙ st.ids q;
    used = st.used;
    next_client = st.next_client;
    next_room = st.next_room;
  }

  pub clear_client-Stable :
      (p : Peer) (w : World) → Stable s₀ gap w.server → Stable s₀ gap (clear_client p w).server
  unfolding clear_client get_client_for_peer
  clear_client-Stable p w st = elim (Option-cases (lookup p w.clients)) [
    | inl n ↦ rw (n, clear_client) st
    | inr (c, e) ↦
        rw (e, clear_client)
          (set_client-Stable p (forget_room c) w
            (unfold forget_room in sym (st.ids p) ∙ ground arith) st)
  ]

  -- A write to a room that keeps its id and its code, and closes or opens the gap.
  pub set_room-Stable :
      (gap' : Option Bytes) (code : Bytes) (r r' : Room) (w : World)
      → lookup code w.rooms ≡ some r
      → r'.room_id ≡ r.room_id
      → r'.room_code ≡ r.room_code
      → (gap' ≡ some code) ⊎ (has r'.host r'.clients ≡ true)
      → ((c : Bytes) → code ≢ c → gap ≡ some c → gap' ≡ some c)
      → Stable s₀ gap w.server
      → Stable s₀ gap' (set_room code r' w).server
  unfolding set_room
  set_room-Stable gap' code r r' w here same_id same_code host gaps st = record {
    rooms = RoomsOk-assign w.rooms code r r' st.rooms here same_id same_code gap' host gaps;
    ids = st.ids;
    used = st.used;
    next_client = st.next_client;
    next_room = st.next_room;
  }

  -- The removal of a room.
  pub remove_room-Stable :
      (code : Bytes) (r : Room) (w : World)
      → lookup code w.rooms ≡ some r
      → ((c : Bytes) → gap ≡ some c → code ≡ c)
      → Stable s₀ gap w.server
      → Stable s₀ none (remove_room code r.room_id w).server
  unfolding remove_room
  remove_room-Stable code r w here gaps st = record {
    rooms = RoomsOk-erase w.rooms code r st.rooms here gaps;
    ids = st.ids;
    used = st.used;
    next_client = st.next_client;
    next_room = st.next_room;
  }
