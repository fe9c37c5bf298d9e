-- ===== src/Server/Ends.antt =====
-- A rule for each way to build a handler: what holds of the server whenever the handler returns.
pub mod Quiet
pub mod Receives
use ynetserver_enet.Base.{
  ℕ, ◌≡◌, refl, ◌∷◌, [], Option, none, some, Bool, true, false, Bool-cases, Option-cases, inl, inr,
  ◌==◌, ◌>>=◌, if◌then◌else◌, arith, subst,
}
use ynetserver_enet.Base.Dict.{Dict}
use ynetserver_enet.Stream.{Stream}
use ynetserver_enet.Message.{AnyMessage, MessageType}
use ynetserver_enet.Message.Wire.{encode}
use ynetserver_enet.Room.{Peer}
use ynetserver_enet.Server.{Server, World, emit, get_client_for_peer}
use ynetserver_enet.Server.Send.{
  send_in, send_message, send_rpc_message, send_text, send_error, for_each,
}

unfoldable pub Ends : (Server → Type 0) → Option World → Type 0
Ends P none = Unit
Ends P (some w) = P w.server

pub Ends-some : (P : Server → Type 0) (w : World) → P w.server → Ends P (some w)
unfolding Ends
Ends-some P w h = h

pub Ends-bind :
    (P Q : Server → Type 0) (m : Option World) (k : World → Option World)
    → Ends P m
    → ((w : World) → m ≡ some w → P w.server → Ends Q (k w))
    → Ends Q (m >>= k)
unfolding Ends
Ends-bind P Q none k h f = tt
Ends-bind P Q (some w) k h f = f w refl h

module _ ⦃io : Stream⦄ (P : Server → Type 0) where
  pub Ends-send_in :
      (cap : ℕ) (p : Peer) (m : AnyMessage) (flags channel : ℕ) (w : World)
      → P w.server
      → Ends P (send_in cap p m flags channel w)
  unfolding send_in emit Ends
  Ends-send_in cap p m flags channel w h = elim (Option-cases (encode cap m)) [
    | inl e ↦ rw e tt
    | inr (b, e) ↦ rw e h
  ]

  pub Ends-send_message :
      (p : Peer) (m : AnyMessage) (flags channel : ℕ) (w : World)
      → P w.server
      → Ends P (send_message p m flags channel w)
  unfolding send_message
  Ends-send_message p m flags channel w h = Ends-send_in _ p m flags channel w h

  pub Ends-send_rpc_message :
      (p : Peer) (m : AnyMessage) (w : World) → P w.server → Ends P (send_rpc_message p m w)
  unfolding send_rpc_message
  Ends-send_rpc_message p m w h = Ends-send_in _ p m _ _ w h

  pub Ends-send_text :
      (p : Peer) (t : MessageType) (s : _) (w : World) → P w.server → Ends P (send_text p t s w)
  unfolding send_text
  Ends-send_text p t s w h = Ends-send_in _ p _ _ _ w h

  pub Ends-send_error : (p : Peer) (s : _) (w : World) → P w.server → Ends P (send_error p s w)
  unfolding send_error
  Ends-send_error p s w h = Ends-send_in _ p _ _ _ w h

  -- A loop keeps what its body keeps.
  pub Ends-for_each :
      (send : Peer → World → Option World)
      → ((p : Peer) (w : World) → P w.server → Ends P (send p w))
      → (skipped : Peer) (members : Dict Peer ℕ) (w : World) → P w.server
      → Ends P (for_each send skipped members w)
  unfolding for_each
  Ends-for_each send body skipped [] w h = Ends-some P w h
  Ends-for_each send body skipped ((p, id) ∷ members) w h = elim (Bool-cases (p == skipped)) [
    | inl e ↦ rw e (Ends-for_each send body skipped members w h)
    | inr e ↦ rw e (elim (Option-cases (get_client_for_peer p w)) [
      | inl n ↦ rw n (Ends-for_each send body skipped members w h)
      | inr (c, s) ↦ rw s (
          Ends-bind P P (send p w) _ (body p w h)
            (λ w' _ h'. Ends-for_each send body skipped members w' h'))
    ])
  ]

-- A test, and a look-up.
pub Ends-if :
    (P : Server → Type 0) (b : Bool) (m n : Option World)
    → (b ≡ true → Ends P m)
    → (b ≡ false → Ends P n)
    → Ends P (if b then m else n)
Ends-if P true m n f g = f refl
Ends-if P false m n f g = g refl

pub Ends-case :
    {A : Type 0} (P : Server → Type 0) (x : Option A) (m : Option World) (k : A → Option World)
    → (x ≡ none → Ends P m)
    → ((a : A) → x ≡ some a → Ends P (k a))
    → Ends P (elim x [ none ↦ m | some a ↦ k a ])
Ends-case P none m k g f = g refl
Ends-case P (some a) m k g f = f a refl

-- What holds of the result of a handler that returns.
pub Ends-result :
    (P : Server → Type 0) (m : Option World) (w : World) → Ends P m → m ≡ some w → P w.server
unfolding Ends
Ends-result P none w h e = absurd (ground arith)
Ends-result P (some v) w h e =
    let same : v ≡ w = ground arith in subst (λ (u : World). P u.server) same h

-- What follows from what holds.
pub Ends-weaken :
    (P Q : Server → Type 0) (m : Option World) → ((s : Server) → P s → Q s) → Ends P m → Ends Q m
unfolding Ends
Ends-weaken P Q none f h = tt
Ends-weaken P Q (some w) f h = f w.server h
