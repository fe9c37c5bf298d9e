-- ===== src/Server/Leave/Guests.antt =====
-- ynetserver.cpp: what `handleRoomLeave` does when a member that is not the host leaves a room.
use ynetserver_enet.Base.{
  ◌<◌, ◌≤◌, ◌^◌, ◌≡◌, ◌≢◌, refl, some, false, nat_key, bytes_key, length, arith, ◌==◌, [],
}
use ynetserver_enet.Base.Dict.{lookup, erase}
use ynetserver_enet.Stream.{Stream, Laws}
use ynetserver_enet.Message.{player_left, text_message}
use ynetserver_enet.Text.{to_string}
use ynetserver_enet.Text.Decimal.{length-to_string}
use ynetserver_enet.Room.{Peer, Room, Client}
use ynetserver_enet.Server.{World, set_client, set_room}
use ynetserver_enet.Server.Send.{send_text, reliable}
use ynetserver_enet.Server.Leave.{forget_room, without_peer, leave_room, handle_room_leave}
use ynetserver_enet.Server.Relay.Delivery.{others, deliver, Sure, for_each-others}
use ynetserver_enet.Server.Yields.{send_text-fits}

-- Where a guest's departure leaves the server.
abbrev pub left : Client → Peer → Room → World → World
left client peer room w =
    set_client peer (record client { current_room = []; room_id = 0 })
      (set_room client.current_room (record room { clients = erase peer room.clients }) w)

-- On streams that keep their laws, when a client whose id has at most nine digits leaves a room
-- that it does not host, the handler returns; the room has lost its peer, and the client is in no
-- room; each other member whose peer is not null and that the server knows gets one message with
-- the client's id; and all else stays as it was.
pub handle_room_leave-left :
    ⦃io : Stream⦄ (laws : Laws io) (client : Client) (peer : Peer) (room : Room) (w : World)
    → lookup client.current_room w.rooms ≡ some room
    → room.host ≢ peer
    → client.id < 10 ^ 9
    → handle_room_leave client peer w
      ≡ some (
          deliver
            (text_message player_left (to_string client.id))
            reliable
            0
            (others 0 w.clients (erase peer room.clients))
            (left client peer room w))
unfolding handle_room_leave leave_room without_peer forget_room set_client set_room deliver
handle_room_leave-left laws client peer room w here guest small =
    let text = to_string client.id in
    let short : length text ≤ 60000 =
      omega (arith, length-to_string client.id 9 small (omega arith)) in
    let sure : Sure (λ p. send_text p player_left text) (text_message player_left text) reliable 0 =
      λ p v. send_text-fits laws p player_left text v short in
    let not_host : (room.host == peer) ≡ false = ground arith in
    rw (here, handle_room_leave)
      (rw not_host (
        rw
          (for_each-others (λ p. send_text p player_left text) (text_message player_left text)
            reliable 0 sure 0 (erase peer room.clients)
            (set_room client.current_room (without_peer peer room) w))
          refl))
