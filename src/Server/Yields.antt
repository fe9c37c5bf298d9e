-- ===== src/Server/Yields.antt =====
-- A rule for each way to build a handler: it returns, and what holds of the world that it returns.
use ynetserver_enet.Base.{
  ℕ, ◌+◌, ◌≤◌, ◌<◌, ◌^◌, ◌≡◌, refl, ◌∷◌, [], ◌++◌, Option, some, Bytes, length, replicate,
  length-replicate, Bool-cases, Option-cases, inl, inr, ◌==◌, ◌>>=◌, arith, nat_key,
}
use ynetserver_enet.Base.Dict.{Dict}
use ynetserver_enet.Stream.{Stream, Laws, total}
use ynetserver_enet.Message.{AnyMessage, MessageType, error, code_of, text_message}
use ynetserver_enet.Message.Wire.{padding}
use ynetserver_enet.Message.Wire.Items.{
  items, IsValid, string_items, some_blob, AllFit, encode_fits, total-append,
}
use ynetserver_enet.Room.{Peer}
use ynetserver_enet.Server.{World, sends, emit, get_client_for_peer}
use ynetserver_enet.Server.Send.{send_in, send_message, send_text, for_each, reliable, send_error}

pub record Yields (P : World → Type 0) (m : Option World) : Type 0 where
  pub world : World
  pub returns : m ≡ some world
  pub holds : P world

-- It returns, whatever the state is then.
abbrev pub Returns : Option World → Type 0
Returns m = Yields (λ w. Unit {0}) m

pub Yields-some : (P : World → Type 0) (w : World) → P w → Yields P (some w)
Yields-some P w h = record { world = w; returns = refl; holds = h }

pub Yields-bind :
    (P Q : World → Type 0) (m : Option World) (k : World → Option World)
    → Yields P m
    → ((w : World) → P w → Yields Q (k w))
    → Yields Q (m >>= k)
Yields-bind P Q m k y f = rw y.returns (f y.world y.holds)

pub Yields-weaken :
    (P Q : World → Type 0) (m : Option World) → ((w : World) → P w → Q w) → Yields P m → Yields Q m
Yields-weaken P Q m f y = record { world = y.world; returns = y.returns; holds = f y.world y.holds }

-- A text that is short enough is valid and small.
pub size_blob : (b : Bytes) → total (some_blob b) ≡ length b
size_blob [] = refl
size_blob (x ∷ b) = omega arith

pub fit_blob : (b : Bytes) → AllFit (some_blob b)
fit_blob [] = tt
fit_blob (x ∷ b) = (tt, tt)

pub AllFit-join : (is js : _) → AllFit is → AllFit js → AllFit (is ++ js)
AllFit-join [] js h k = k
AllFit-join (i ∷ is) js h k = (h.0, AllFit-join is js h.1 k)

pub total_of_string : (s : Bytes) → total (string_items s) ≡ 8 + length s + padding (length s)
total_of_string s = omega (
  arith,
  total-append (some_blob s) (some_blob (replicate (padding (length s)) 0)),
  size_blob s,
  size_blob (replicate (padding (length s)) 0),
  length-replicate {A = ℕ} (padding (length s)) 0,
)

pub code_small : (t : MessageType) → code_of t < 2 ^ 8
code_small error = omega arith
code_small _ = omega arith

pub string_items-AllFit : (s : Bytes) → length s ≤ 60000 → AllFit (string_items s)
string_items-AllFit s h = (
  omega arith,
  (
    omega arith,
    AllFit-join (some_blob s) _ (fit_blob s) (fit_blob (replicate (padding (length s)) 0)),
  ),
)

pub text-IsValid : (t : MessageType) (s : Bytes) → length s ≤ 60000 → IsValid (text_message t s)
text-IsValid t s h = (code_small t, string_items-AllFit s h)

pub padding-small : (n : ℕ) → padding n ≤ 3
padding-small n = omega arith

pub text_fits :
    (t : MessageType) (s : Bytes) → length s ≤ 60000 → total (items (text_message t s)) ≤ 65532
text_fits t s short = omega (arith, total_of_string s, padding-small (length s))

module _ ⦃io : Stream⦄ (laws : Laws io) where
  -- What fits its buffer is sent.
  pub send_in-fits :
      (cap : ℕ) (p : Peer) (m : AnyMessage) (flags channel : ℕ) (w : World)
      → IsValid m
      → total (items m) ≤ cap
      → send_in cap p m flags channel w ≡ some (emit (sends p channel flags m) w)
  unfolding send_in
  send_in-fits cap p m flags channel w valid fits =
      let (o, e, written) = encode_fits laws cap m valid fits in rw e refl

  -- A text of at most 60000 bytes always is.
  pub send_text-fits :
      (p : Peer) (t : MessageType) (s : Bytes) (w : World)
      → length s ≤ 60000
      → send_text p t s w ≡ some (emit (sends p 0 reliable (text_message t s)) w)
  unfolding send_text send_message
  send_text-fits p t s w short =
      send_in-fits 65532 p (text_message t s) reliable 0 w (text-IsValid t s short)
        (text_fits t s short)

  pub Yields-send_text :
      (P : World → Type 0) (p : Peer) (t : MessageType) (s : Bytes) (w : World)
      → length s ≤ 60000
      → P (emit (sends p 0 reliable (text_message t s)) w)
      → Yields P (send_text p t s w)
  Yields-send_text P p t s w short h = record {
    world = _;
    returns = send_text-fits p t s w short;
    holds = h;
  }

  -- A loop returns if its body does, and keeps what its body keeps.
  pub Yields-for_each :
      (P : World → Type 0) (send : Peer → World → Option World)
      → ((p : Peer) (w : World) → P w → Yields P (send p w))
      → (skipped : Peer) (members : Dict Peer ℕ) (w : World) → P w
      → Yields P (for_each send skipped members w)
  unfolding for_each
  Yields-for_each P send body skipped [] w h = Yields-some P w h
  Yields-for_each P send body skipped ((p, id) ∷ members) w h = elim (Bool-cases (p == skipped)) [
    | inl e ↦ rw e (Yields-for_each P send body skipped members w h)
    | inr e ↦ rw e (elim (Option-cases (get_client_for_peer p w)) [
      | inl n ↦ rw n (Yields-for_each P send body skipped members w h)
      | inr (c, s) ↦ rw s (
          Yields-bind P P (send p w) _ (body p w h)
            (λ w' h'. Yields-for_each P send body skipped members w' h'))
    ])
  ]

  pub Yields-send_error :
      (P : World → Type 0) (p : Peer) (s : Bytes) (w : World)
      → length s ≤ 60000
      → P (emit (sends p 0 reliable (text_message error s)) w)
      → Yields P (send_error p s w)
  unfolding send_error
  Yields-send_error P p s w short h = Yields-send_text P p error s w short h
