-- ===== src/Server/Run.antt =====
-- ynetserver.cpp: `run`, `createClientForPeer`, `getClientForPeer` and `roomIdForPeer`.
use ynetserver_enet.Base.{ℕ, [], ◌∷◌, List, Option, none, some, false, Bytes, nat_key, ◌>>=◌}
use ynetserver_enet.Base.Dict.{insert, erase}
use ynetserver_enet.Stream.{Stream}
use ynetserver_enet.Message.{connection, code_of, confirm_connection}
use ynetserver_enet.Room.{Peer, Client}
use ynetserver_enet.Server.{World, get_client_for_peer}
use ynetserver_enet.Server.Ids.{generate_client_id, release_client_id}
use ynetserver_enet.Server.Send.{send_message, reliable}
use ynetserver_enet.Server.Leave.{handle_room_leave}
use ynetserver_enet.Server.Info.{Json}
use ynetserver_enet.Server.Dispatch.{handle_received_data}

unfoldable pub room_id_for_peer : Peer → World → ℕ
room_id_for_peer peer w = elim (get_client_for_peer peer w) [ none ↦ 0 | some c ↦ c.room_id ]

-- `new Client()` zero-initializes. `none`: no client id is left, and the exception ends the server.
unfoldable pub create_client_for_peer : Peer → ℕ → World → Option (Client × World)
create_client_for_peer peer protocol w = do
  (id, s) ← generate_client_id w.server
  let client : Client = record {
    id = id;
    current_room = [];
    room_id = 0;
    protocol_version = protocol;
    debugging = false;
  }
  some (client, record w { server = record s { clients = insert peer client s.clients } })

-- What `enet_host_service` reports.
pub data Event : Type 0 where
  connect : Peer → ℕ → Event
  receive : Peer → Bytes → Event
  disconnect : Peer → Event
  disconnect_timeout : Peer → Event

module _ ⦃io : Stream⦄ where
  unfoldable pub on_connect : Peer → ℕ → World → Option World
  unfolding create_client_for_peer
  on_connect peer protocol w = do
    (client, w₁) ← create_client_for_peer peer protocol w
    send_message peer (connection (code_of confirm_connection) client.id) reliable 0 w₁

  unfoldable pub on_disconnect : Client → Peer → World → Option World
  on_disconnect client peer w = do
    w₁ ← handle_room_leave client peer (record w { server = release_client_id client.id w.server })
    some (record w₁ { server = record (w₁.server) { clients = erase peer w₁.clients } })

module _ ⦃io : Stream⦄ ⦃json : Json⦄ where
  -- One event. The code reads `client->debugging` before it tests the pointer, so an event of a
  -- peer without a client ends the process.
  unfoldable pub step : Event → World → Option World
  unfolding on_connect on_disconnect
  step (connect peer protocol) w = on_connect peer protocol w
  step (receive peer b) w = do
    client ← get_client_for_peer peer w
    handle_received_data client peer b w
  step (disconnect peer) w = do client ← get_client_for_peer peer w; on_disconnect client peer w
  step (disconnect_timeout peer) w = do
    client ← get_client_for_peer peer w
    on_disconnect client peer w

  -- The event loop on the events so far.
  unfoldable pub run : List Event → World → Option World
  unfolding step
  run [] w = some w
  run (e ∷ es) w = do w' ← step e w; run es w'
