-- ===== src/Server/Join/Refusals.antt =====
-- ynetserver.cpp: how `handleRoomJoin` answers a client that it does not let in.
use ynetserver_enet.Base.{
  ◌≤◌, ◌≡◌, some, false, not, Bytes, nat_key, bytes_key, bytes_eq, bytes_eq_iff, is_empty, length,
  ◌==◌, arith, option-cases, if-cases, Option,
}
use ynetserver_enet.Base.Dict.{lookup}
use ynetserver_enet.Stream.{Stream, Laws}
use ynetserver_enet.Message.{error, text_message}
use ynetserver_enet.Room.{Peer, Room, Client}
use ynetserver_enet.Server.{World, sends, emit}
use ynetserver_enet.Server.Send.{send_error, reliable}
use ynetserver_enet.Server.Join.{join_found, join_named, handle_room_join, at_capacity}
use ynetserver_enet.Server.Join.Admission.{Admits}
use ynetserver_enet.Server.Yields.{send_text-fits}

-- One error goes to the sender, and that is all.
unfoldable pub Refused : Peer → World → Option World → Type 0
Refused peer w m =
    (text : Bytes) × (m ≡ some (emit (sends peer 0 reliable (text_message error text)) w))

module _ ⦃io : Stream⦄ (laws : Laws io) (client : Client) (peer : Peer) where
  refuses : (s : Bytes) (w : World) → length s ≤ 60000 → Refused peer w (send_error peer s w)
  unfolding send_error Refused
  refuses s w short = (s, send_text-fits laws peer error s w short)

  join_found-Refused :
      (code password : Bytes) (room : Room) (w : World)
      → ¬ Admits client password room
      → Refused peer w (join_found client peer code password room w)
  unfolding join_found
  join_found-Refused code password room w outside =
      let P = Refused peer w in
      if-cases P (not (room.protocol == client.protocol_version)) _ _
        (λ _. refuses _ w (omega arith))
        (λ protocol.
          if-cases P (not (bytes_eq room.password password)) _ _ (λ _. refuses _ w (omega arith))
            (λ same.
              if-cases P room.is_private _ _ (λ _. refuses _ w (omega arith))
                (λ public.
                  if-cases P (at_capacity room) _ _ (λ _. refuses _ w (omega arith))
                    (λ space. absurd (
                      outside (record {
                        same_protocol = ground arith;
                        same_password = ground (arith, bytes_eq_iff room.password password);
                        not_private = public;
                        has_space = ground arith;
                      }))))))

  -- On streams that keep their laws, a join by a non-empty room code under which there is no room,
  -- or one whose protocol or password is not the client's, that is private or that is full, is
  -- answered by one error to the sender, and nothing else changes.
  pub handle_room_join-Refused :
      (code password : Bytes) (w : World)
      → is_empty code ≡ false
      → ((room : Room) → lookup code w.rooms ≡ some room → ¬ Admits client password room)
      → Refused peer w (handle_room_join client peer code password w)
  unfolding handle_room_join join_named
  handle_room_join-Refused code password w named outside = rw named (
      option-cases (Refused peer w) (lookup code w.rooms) _ _ (λ _. refuses _ w (omega arith))
        (λ room here. join_found-Refused code password room w (outside room here)))
