-- ===== src/Client/Connection/Lifetime.antt =====
-- ynetclient.cpp: `connect` and `disconnect` against what ENet answers.
use ynetserver_enet.Base.{
  ℕ, zero, suc, ◌≤◌, ◌≡◌, refl, sym, ◌∙◌, List, [], ◌∷◌, ◌++◌, some, Bool, true, false, ◌&&◌,
  length, length-append, take, arith, Bool-cases, inl, inr,
}
use ynetserver_enet.Resources.{Call, Held, nothing, follow, follow-append, reset_peer, destroy_host}
use ynetserver_enet.Client.Connection.{
  fresh, Link, Service, connected, received, disconnected, other_event, quiet, failed, Answers,
  setup_client, max_attempts, wait, connect_peer_of, connect, drain, disconnect,
}

-- ENet is initialized, and nothing else is held.
abbrev pub ready : Held
ready = record nothing { enet = true }

-- The first answer that decides is a connection.
unfoldable pub grants : List Service → Bool
grants [] = false
grants (connected ∷ s) = true
grants (disconnected ∷ s) = false
grants (failed ∷ s) = false
grants (_ ∷ s) = grants s

wait-grants : (n : ℕ) (s : List Service) → (wait n s).0 ≡ grants (take n s)
unfolding wait grants
wait-grants zero s = refl
wait-grants (suc zero) [] = refl
wait-grants (suc (suc n)) [] = wait-grants (suc n) []
wait-grants (suc n) (connected ∷ s) = refl
wait-grants (suc n) (disconnected ∷ s) = refl
wait-grants (suc n) (failed ∷ s) = refl
wait-grants (suc n) (received ∷ s) = wait-grants n s
wait-grants (suc n) (other_event ∷ s) = wait-grants n s
wait-grants (suc n) (quiet ∷ s) = wait-grants n s

-- With a host and a peer.
abbrev talking : Held
talking = record ready { host = true; peer = true }

-- The loop only asks, and at most `n` times.
wait_calls :
    (n : ℕ) (s : List Service)
    → (follow ((wait n s).1) talking ≡ some talking) × (length ((wait n s).1) ≤ n)
unfolding wait follow
wait_calls zero s = (refl, omega arith)
wait_calls (suc n) [] = let (e, k) = wait_calls n [] in (e, omega arith)
wait_calls (suc n) (connected ∷ s) = (refl, omega arith)
wait_calls (suc n) (disconnected ∷ s) = (refl, omega arith)
wait_calls (suc n) (failed ∷ s) = (refl, omega arith)
wait_calls (suc n) (received ∷ s) = let (e, k) = wait_calls n s in (e, omega arith)
wait_calls (suc n) (other_event ∷ s) = let (e, k) = wait_calls n s in (e, omega arith)
wait_calls (suc n) (quiet ∷ s) = let (e, k) = wait_calls n s in (e, omega arith)

follow-drain :
    (n : ℕ) → follow (drain n) (record ready { host = true }) ≡ some (record ready { host = true })
unfolding follow drain
follow-drain zero = refl
follow-drain (suc n) = follow-drain n

-- What a link holds.
abbrev pub held_by : Link → Held
held_by l = record ready { host = l.client; peer = l.peer }

-- What a call of `connect` comes to: its result, the link, and the calls.
pub record Connects (a : Answers) (result : Bool × Link × List Call) : Type 0 where
  pub granted :
      result.0 ≡ (a.created && (a.compressed && (a.given && grants (take max_attempts a.services))))
  pub has_client : result.1.client ≡ result.0
  pub has_peer : result.1.peer ≡ result.0
  pub has_thread : result.1.thread ≡ result.0
  pub orderly : follow result.2 ready ≡ some (held_by result.1)
  pub short : length result.2 ≤ 10

given_peer :
    (s : List Service) (protocol : ℕ)
    → Connects
        (record { created = true; compressed = true; given = true; services = s })
        (connect
          (record { created = true; compressed = true; given = true; services = s })
          protocol
          fresh)
unfolding connect setup_client connect_peer_of follow
given_peer s protocol =
    let calls = wait_calls max_attempts s in
    let came = wait-grants max_attempts s in
    elim (Bool-cases ((wait max_attempts s).0)) [
      | inl yes_ ↦ rw yes_ (record {
        granted = sym yes_ ∙ came;
        has_client = refl;
        has_peer = refl;
        has_thread = refl;
        orderly = calls.0;
        short = omega (arith, calls.1);
      })
      | inr no_ ↦ rw no_ (record {
        granted = sym no_ ∙ came;
        has_client = refl;
        has_peer = refl;
        has_thread = refl;
        orderly =
            follow-append ((wait max_attempts s).1) (reset_peer ∷ destroy_host ∷ []) talking talking
              calls.0;
        short = omega (
          arith,
          calls.1,
          length-append ((wait max_attempts s).1) (reset_peer ∷ destroy_host ∷ []),
        );
      })
    ]

-- A new client that connects gets a connection exactly if ENet makes the host, compresses, gives a
-- peer, and within five answers reports the connection before a disconnection or an error; it has
-- a host, a peer and a thread exactly then; with ENet initialized its calls are allowed and leave
-- what the members say; and they are at most ten.
pub connect-Connects : (a : Answers) (protocol : ℕ) → Connects a (connect a protocol fresh)
unfolding connect setup_client connect_peer_of follow
connect-Connects a protocol = by_cases a.created a.compressed a.given
  where
    by_cases :
        (c k g : Bool)
        → let a' : Answers = record {
          created = c;
          compressed = k;
          given = g;
          services = a.services;
        } in
          Connects a' (connect a' protocol fresh)
    by_cases false k g = record {
      granted = refl;
      has_client = refl;
      has_peer = refl;
      has_thread = refl;
      orderly = refl;
      short = omega arith;
    }
    by_cases true false g = record {
      granted = refl;
      has_client = refl;
      has_peer = refl;
      has_thread = refl;
      orderly = refl;
      short = omega arith;
    }
    by_cases true true false = record {
      granted = refl;
      has_client = refl;
      has_peer = refl;
      has_thread = refl;
      orderly = refl;
      short = omega arith;
    }
    by_cases true true true = given_peer a.services protocol

-- Giving up a link that has both, or neither.
follow-disconnect :
    (n : ℕ) (l : Link) (on : Bool)
    → l.client ≡ on
    → l.peer ≡ on
    → follow ((disconnect n l).1) (held_by l) ≡ some ready
unfolding disconnect follow
follow-disconnect n l true client peer =
    rw (client, peer, follow-append (drain n) (destroy_host ∷ []) _ _ (follow-drain n)) refl
follow-disconnect n l false client peer = rw (client, peer) refl

-- With ENet initialized, a new client that connects, with success or not, and disconnects makes
-- calls that are allowed and holds nothing of ENet afterwards, and its members are those of a new
-- client.
pub connect-disconnect :
    (a : Answers) (protocol n : ℕ)
    → let (came, l, calls) = connect a protocol fresh in
      let (l', more) = disconnect n l in (follow (calls ++ more) ready ≡ some ready) × (l' ≡ fresh)
unfolding disconnect
connect-disconnect a protocol n =
    let c = connect-Connects a protocol in
    let (came, l, calls) = connect a protocol fresh in
    (
      follow-append calls ((disconnect n l).1) ready (held_by l) c.orderly
          ∙ follow-disconnect n l came c.has_client c.has_peer,
      refl,
    )
