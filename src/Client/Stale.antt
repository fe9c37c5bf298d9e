-- ===== src/Client/Stale.antt =====
-- ynetclient.cpp: `joinRoom`, and an error that answers it.
use ynetserver_enet.Base.{ℕ, ◌≤◌, ◌≡◌, refl, [], ◌∷◌, List, some, true, Bytes, length}
use ynetserver_enet.Stream.{Stream, Laws, total}
use ynetserver_enet.Message.{
  AnyMessage, join_with_password, join_room_with_password, code_of, text_message, error, type_of,
}
use ynetserver_enet.Message.Wire.{encode}
use ynetserver_enet.Message.Wire.Items.{items, IsValid, encode_fits}
use ynetserver_enet.Message.Parse.{shape_for, texts}
use ynetserver_enet.Message.RoundTrip.{encode-deserialize}
use ynetserver_enet.Server.Yields.{text-IsValid, text_fits}
use ynetserver_enet.Client.{
  YNetClient, join_room, request, send_to_server, on_receive, max_message_size, message_of,
  is_refused, after_sending,
}

module _ ⦃io : Stream⦄ (laws : Laws io) where
  -- An error from the server changes nothing in the client.
  on_receive-error :
      (s : Bytes) (c : YNetClient)
      → length s ≤ 60000
      → (b : Bytes) × (encode 65532 (text_message error s) ≡ some b) × (on_receive b c ≡ some c)
  unfolding on_receive shape_for type_of
  on_receive-error s c short =
      let (b, e, d) =
        encode-deserialize laws 65532 (text_message error s) texts (text-IsValid error s short)
          (text_fits error s short) refl refl in
      (b, e, rw d refl)

  -- On streams that keep their laws, a connected client whose request to join a room is valid,
  -- fits, and is accepted by ENet has the room's code as its current room, and an error of at most
  -- 60000 bytes from the server leaves it so.
  pub join_room-stale :
      (stale : ℕ) (code password s : Bytes) (c : YNetClient)
      → c.is_connected ≡ true
      → IsValid (join_with_password (code_of join_room_with_password) code password)
      → total (items (join_with_password (code_of join_room_with_password) code password))
        ≤ max_message_size
      → length s ≤ 60000
      → (packets : List Bytes) × (b : Bytes) × (request true stale (join_room code password) c
          ≡ some (true, record c { current_room = code }, packets))
        × (encode 65532 (text_message error s) ≡ some b)
        × (on_receive b (record c { current_room = code })
            ≡ some (record c { current_room = code }))
  unfolding request send_to_server message_of is_refused after_sending
  join_room-stale stale code password s c connected valid fits short =
      let m : AnyMessage = join_with_password (code_of join_room_with_password) code password in
      let (o, e, w) = encode_fits laws max_message_size m valid fits in
      let (b, sent, same) = on_receive-error s (record c { current_room = code }) short in
      (io.flush o ∷ [], b, rw (connected, e) refl, sent, same)
