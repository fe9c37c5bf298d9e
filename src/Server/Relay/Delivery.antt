-- ===== src/Server/Relay/Delivery.antt =====
-- ynetserver.cpp: whom the handlers that pass data on reach.
use ynetserver_enet.Server.Relay.{
  forwarded_packet, forwarded_rpc, handle_packet_to_clients, handle_rpc_to_clients, broadcast_to,
  broadcast_message,
}
use ynetserver_enet.Server.Yields.{send_in-fits, send_text-fits, size_blob, fit_blob}
use ynetserver_enet.Message.Wire.Items.{items, IsValid, encode_full}
use ynetserver_enet.Base.{
  ℕ, ◌≡◌, sym, ap, ◌∙◌, List, [], ◌∷◌, ◌++◌, append_assoc, append-nil, Option, some, true, false,
  not, ◌&&◌, map, keep, keep-no, keep-yes, nat_key, bytes_key, Bool-cases, Option-cases, inl, inr,
  arith, ◌==◌, none, if◌then◌else◌, length, ◌<◌, ◌≤◌, Bytes, ◌^◌, refl,
}
use ynetserver_enet.Base.Dict.{Dict, lookup, has}
use ynetserver_enet.Stream.{Stream, Laws, total}
use ynetserver_enet.Message.{AnyMessage, packet_to_clients, message, text_message}
use ynetserver_enet.Room.{Peer, Client}
use ynetserver_enet.Server.{World, sends, emit, get_client_for_peer}
use ynetserver_enet.Server.Send.{
  for_each, send_message, send_rpc_message, reliable, rpc_buffer_size, buffer_size, send_in,
}

-- The members other than one, whose clients the server knows.
unfoldable pub others : Peer → Dict Peer Client → Dict Peer ℕ → List Peer
others skipped clients members =
    keep (λ p. not (p == skipped) && has p clients) (map (λ e. e.0) members)

others-not :
    (skipped : Peer) (clients : Dict Peer Client) (p id : ℕ) (members : Dict Peer ℕ)
    → (not (p == skipped) && has p clients) ≡ false
    → others skipped clients ((p, id) ∷ members) ≡ others skipped clients members
unfolding others
others-not skipped clients p id members h =
    keep-no (λ q. not (q == skipped) && has q clients) p (map (λ e. e.0) members) h

others-also :
    (skipped : Peer) (clients : Dict Peer Client) (p id : ℕ) (members : Dict Peer ℕ)
    → (not (p == skipped) && has p clients) ≡ true
    → others skipped clients ((p, id) ∷ members) ≡ p ∷ others skipped clients members
unfolding others
others-also skipped clients p id members h =
    keep-yes (λ q. not (q == skipped) && has q clients) p (map (λ e. e.0) members) h

-- Whom a host's data reaches: the other members of its room; a guest's data reaches nobody.
unfoldable pub audience : Client → Peer → World → List Peer
unfolding others
audience client peer w = elim (lookup client.current_room w.rooms) [
  | none ↦ []
  | some room ↦ if room.host == peer then others peer w.clients room.clients else []
]

-- The members other than one.
unfoldable pub rest_of : Peer → Dict Peer ℕ → List Peer
rest_of peer members = keep (λ p. not (p == peer)) (map (λ e. e.0) members)

rest_of_same :
    (peer p id : ℕ) (members : Dict Peer ℕ)
    → (p == peer) ≡ true
    → rest_of peer ((p, id) ∷ members) ≡ rest_of peer members
unfolding rest_of
rest_of_same peer p id members e =
    keep-no (λ q. not (q == peer)) p (map (λ e. e.0) members) (ground arith)

rest_of_different :
    (peer p id : ℕ) (members : Dict Peer ℕ)
    → (p == peer) ≡ false
    → rest_of peer ((p, id) ∷ members) ≡ p ∷ rest_of peer members
unfolding rest_of
rest_of_different peer p id members e =
    keep-yes (λ q. not (q == peer)) p (map (λ e. e.0) members) (ground arith)

-- Whom a broadcast reaches: the rest of the room, if the protocols agree.
unfoldable pub listeners : Client → Peer → World → List Peer
unfolding rest_of
listeners client peer w = elim (lookup client.current_room w.rooms) [
  | none ↦ []
  | some room ↦ if room.protocol == client.protocol_version then rest_of peer room.clients else []
]

-- One packet to each peer.
unfoldable pub deliver : AnyMessage → ℕ → ℕ → List Peer → World → World
deliver m flags channel peers w = record w {
  effects = w.effects ++ map (λ p. sends p channel flags m) peers;
}

pub deliver-nil :
    (m : AnyMessage) (flags channel : ℕ) (w : World) → some w ≡ some (deliver m flags channel [] w)
unfolding deliver
deliver-nil m flags channel w =
    ap (λ l. some (record w { effects = l })) (sym (append-nil w.effects))

pub deliver-cons :
    (m : AnyMessage) (flags channel : ℕ) (p : Peer) (ps : List Peer) (w : World)
    → some (deliver m flags channel ps (emit (sends p channel flags m) w))
      ≡ some (deliver m flags channel (p ∷ ps) w)
unfolding deliver emit
deliver-cons m flags channel p ps w =
    ap (λ l. some (record w { effects = l }))
      (append_assoc w.effects (sends p channel flags m ∷ []) _)

module _ ⦃io : Stream⦄ where
  -- A send that works out the same everywhere.
  abbrev pub Sure : (Peer → World → Option World) → AnyMessage → ℕ → ℕ → Type 0
  Sure send m flags channel =
      (p : Peer) (w : World) → send p w ≡ some (emit (sends p channel flags m) w)

  pub for_each-others :
      (send : Peer → World → Option World) (m : AnyMessage) (flags channel : ℕ)
      → Sure send m flags channel
      → (skipped : Peer) (members : Dict Peer ℕ) (w : World)
      → for_each send skipped members w
        ≡ some (deliver m flags channel (others skipped w.clients members) w)
  unfolding for_each get_client_for_peer emit
  for_each-others send m flags channel sure skipped [] w =
      unfold others in deliver-nil m flags channel w
  for_each-others send m flags channel sure skipped ((p, id) ∷ members) w =
      let rest = for_each-others send m flags channel sure skipped members in
      let skip = others-not skipped w.clients p id members in
      elim (Bool-cases (p == skipped)) [
        | inl e ↦ rw (e, skip (ground arith)) (rest w)
        | inr e ↦ elim (Option-cases (lookup p w.clients)) [
          | inl n ↦ rw (e, skip (ground arith), n) (rest w)
          | inr (c, s) ↦
              let also = others-also skipped w.clients p id members (ground arith) in
              rw (e, also, s, sure p w)
                (rest (emit (sends p channel flags m) w)
                  ∙ deliver-cons m flags channel p (others skipped w.clients members) w)
        ]
      ]

module _ ⦃io : Stream⦄ (laws : Laws io) (client : Client) (peer : Peer) where
  to_audience :
      (send : Peer → World → Option World) (m : AnyMessage) (flags channel : ℕ) (w : World)
      → Sure send m flags channel
      → (elim (lookup client.current_room w.rooms) [
        | none ↦ some w
        | some room ↦ if not (room.host == peer) then some w else for_each send peer room.clients w
      ])
        ≡ some (deliver m flags channel (audience client peer w) w)
  unfolding audience
  to_audience send m flags channel w sure =
      elim (Option-cases (lookup client.current_room w.rooms)) [
        | inl n ↦ rw (n, audience) (deliver-nil m flags channel w)
        | inr (room, e) ↦ elim (Bool-cases (room.host == peer)) [
          | inl host ↦
              rw (e, audience, host) (for_each-others send m flags channel sure peer room.clients w)
          | inr guest ↦ rw (e, audience, guest) (deliver-nil m flags channel w)
        ]
      ]

  -- On streams that keep their laws, a valid packet for the clients that fits the buffer goes out,
  -- once each, to the other known members of the sender's room if the sender hosts it, and to
  -- nobody else; the server's state stays.
  pub handle_packet_to_clients-audience :
      (b : Bytes) (flags channel : ℕ) (w : World)
      → let m : AnyMessage = forwarded_packet packet_to_clients client.id b flags channel in
        IsValid m
        → total (items m) ≤ buffer_size
        → handle_packet_to_clients client peer b flags channel w
          ≡ some (deliver m flags channel (audience client peer w) w)
  unfolding handle_packet_to_clients
  handle_packet_to_clients-audience b flags channel w valid fits =
      let m : AnyMessage = forwarded_packet packet_to_clients client.id b flags channel in
      to_audience (λ p. send_message p m flags channel) m flags channel w
        (λ p v. unfold send_message in send_in-fits laws buffer_size p m flags channel v valid fits)

  -- On streams that keep their laws, an RPC for the clients with a 16-bit type and at most 33
  -- bytes of data goes out, once each, to the other known members of the sender's room if the
  -- sender hosts it, and to nobody else; the server's state stays.
  pub handle_rpc_to_clients-audience :
      (k : ℕ) (b : Bytes) (w : World)
      → k < 65536
      → length b ≤ 33
      → handle_rpc_to_clients client peer k b w
        ≡ some (deliver (forwarded_rpc k b) reliable 0 (audience client peer w) w)
  unfolding handle_rpc_to_clients
  handle_rpc_to_clients-audience k b w small short =
      to_audience (λ p. send_rpc_message p (forwarded_rpc k b)) (forwarded_rpc k b) reliable 0 w
        (λ p v.
          unfold send_rpc_message in
          send_in-fits laws rpc_buffer_size p (forwarded_rpc k b) reliable 0 v
            (omega arith, (small, (omega arith, fit_blob b))) (omega (arith, size_blob b)))

  -- On streams that keep their laws, sending an RPC with a 16-bit type and more than 33 bytes of
  -- data, fewer than 2 ^ 32, ends the process.
  pub send_rpc_message-overflow :
      (p : Peer) (k : ℕ) (b : Bytes) (w : World)
      → k < 65536
      → 33 < length b
      → length b < 2 ^ 32
      → send_rpc_message p (forwarded_rpc k b) w ≡ none
  unfolding send_rpc_message send_in
  send_rpc_message-overflow p k b w small long below =
      rw
        (encode_full laws rpc_buffer_size (forwarded_rpc k b)
          (omega arith, (small, (below, fit_blob b))) (omega (arith, size_blob b)))
        refl

  broadcast_to-rest :
      (s : Bytes) (members : Dict Peer ℕ) (w : World)
      → length s ≤ 60000
      → broadcast_to peer s members w
        ≡ some (deliver (text_message message s) reliable 0 (rest_of peer members) w)
  unfolding broadcast_to
  broadcast_to-rest s [] w short =
      unfold rest_of in deliver-nil (text_message message s) reliable 0 w
  broadcast_to-rest s ((p, id) ∷ members) w short =
      let m = text_message message s in
      let rest = broadcast_to-rest s members in
      elim (Bool-cases (p == peer)) [
        | inl e ↦ rw (e, rest_of_same peer p id members e) (rest w short)
        | inr e ↦
            rw (e, rest_of_different peer p id members e, send_text-fits laws p message s w short)
              (rest (emit (sends p 0 reliable m) w) short
                ∙ deliver-cons m reliable 0 p (rest_of peer members) w)
      ]

  -- On streams that keep their laws, a broadcast of at most 60000 bytes goes out, once each, to
  -- the other members of the sender's room if the sender's protocol is that of the room, and to
  -- nobody else; the server's state stays.
  pub broadcast_message-listeners :
      (s : Bytes) (w : World)
      → length s ≤ 60000
      → broadcast_message client peer s w
        ≡ some (deliver (text_message message s) reliable 0 (listeners client peer w) w)
  unfolding broadcast_message listeners
  broadcast_message-listeners s w short =
      let none_sent = deliver-nil (text_message message s) reliable 0 w in
      elim (Option-cases (lookup client.current_room w.rooms)) [
        | inl n ↦ rw (n, broadcast_message, listeners) none_sent
        | inr (room, e) ↦ elim (Bool-cases (room.protocol == client.protocol_version)) [
          | inr other ↦ rw (e, broadcast_message, listeners, other) none_sent
          | inl same ↦
              rw (e, broadcast_message, listeners, same) (broadcast_to-rest s room.clients w short)
        ]
      ]
