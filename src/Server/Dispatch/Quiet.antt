-- ===== src/Server/Dispatch/Quiet.antt =====
-- ynetserver.cpp: what `handleReceivedData` does with a packet that it cannot parse, and with a
-- setting.
use ynetserver_enet.Base.{
  ℕ, ◌≡◌, refl, [], ◌∷◌, some, Bytes, bytes_key, nat_key, inl, inr, arith, Option-cases,
}
use ynetserver_enet.Stream.{Stream}
use ynetserver_enet.Message
use ynetserver_enet.Message.Parse.{deserialize}
use ynetserver_enet.Room.{Peer, Client}
use ynetserver_enet.Server.{World}
use ynetserver_enet.Server.Info.{Json}
use ynetserver_enet.Server.Dispatch.{dispatch, dispatch_type, handle_received_data}

module _ ⦃io : Stream⦄ ⦃json : Json⦄ (client : Client) (peer : Peer) where
  dispatch-base :
      (raw : Bytes) (t : Message.MessageType) (k : ℕ) (w : World)
      → dispatch client peer raw t (Message.base k) w ≡ some w
  unfolding dispatch
  dispatch-base raw Message.error k w = refl
  dispatch-base raw _ k w = refl

  -- A packet that Deserialize makes a plain BaseMessage of, because its type is unknown or its
  -- structure cannot be read, changes nothing and sends nothing.
  pub handle_received_data-unparsed :
      (raw : Bytes) (k : ℕ) (w : World)
      → deserialize raw ≡ some (Message.base k)
      → handle_received_data client peer raw w ≡ some w
  unfolding handle_received_data dispatch_type
  handle_received_data-unparsed [] k w e = unfold deserialize in absurd (ground arith)
  handle_received_data-unparsed (c ∷ b) k w e = elim (Option-cases (Message.type_of c)) [
    | inl n ↦ rw (e, n) refl
    | inr (t, f) ↦ rw (e, f) (dispatch-base (c ∷ b) t k w)
  ]
