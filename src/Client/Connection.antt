-- ===== src/Client/Connection.antt =====
-- ynetclient.cpp: `setupClient`, `connect`, `disconnect`, and the destructor.
pub mod Lifetime
use ynetserver_enet.Base.{
  ℕ, zero, suc, List, [], ◌∷◌, ◌++◌, Bool, true, false, not, if◌then◌else◌, Bytes,
}
use ynetserver_enet.Resources.{
  Call, create_host, compress, destroy_host, connect_peer, service, reset_peer, disconnect_peer,
}

-- The members that these functions use: whether there is a host and a peer, the flag of the message
-- thread, and whether that thread runs.
pub record Link : Type 0 where
  pub client : Bool
  pub peer : Bool
  pub running : Bool
  pub thread : Bool
  pub current_room : Bytes

-- What the constructor leaves.
abbrev pub fresh : Link
fresh = record { client = false; peer = false; running = false; thread = false; current_room = [] }

-- What `enet_host_service` says: an event, nothing in time, or an error.
pub data Service : Type 0 where
  connected : Service
  received : Service
  disconnected : Service
  other_event : Service
  quiet : Service
  failed : Service

-- What ENet answers, the calls of `enet_host_service` in order; when the list is at its end,
-- nothing comes any more.
pub record Answers : Type 0 where
  pub created : Bool
  pub compressed : Bool
  pub given : Bool
  pub services : List Service

unfoldable pub setup_client : Answers → Link → Bool × Link × List Call
setup_client a l =
    if not a.created
    then (false, record l { client = false }, create_host false ∷ [])
    else if not a.compressed
    then (false, record l { client = false }, create_host true ∷ compress false ∷ destroy_host ∷ [])
    else (true, record l { client = true }, create_host true ∷ compress true ∷ [])

abbrev pub max_attempts : ℕ
max_attempts = 5

-- The loop that waits for the connection: whether it came, and the calls.
unfoldable pub wait : ℕ → List Service → Bool × List Call
wait zero s = (false, [])
wait (suc n) [] = let rest = wait n [] in (rest.0, service ∷ rest.1)
wait (suc n) (connected ∷ s) = (true, service ∷ [])
wait (suc n) (disconnected ∷ s) = (false, service ∷ [])
wait (suc n) (failed ∷ s) = (false, service ∷ [])
wait (suc n) (_ ∷ s) = let rest = wait n s in (rest.0, service ∷ rest.1)

-- The part behind a host that is set up.
unfoldable pub connect_peer_of : Answers → ℕ → Link → Bool × Link × List Call
unfolding wait
connect_peer_of a protocol l =
    if not a.given
    then (
      false,
      record l { client = false; peer = false },
      connect_peer protocol false ∷ destroy_host ∷ [],
    )
    else (let (came, calls) = wait max_attempts a.services in
        if came
        then (
          true,
          record l { peer = true; running = true; thread = true },
          connect_peer protocol true ∷ calls,
        )
        else (
          false,
          record l { client = false; peer = false; running = false; thread = false },
          connect_peer protocol true ∷ calls ++ reset_peer ∷ destroy_host ∷ [],
        ))

unfoldable pub connect : Answers → ℕ → Link → Bool × Link × List Call
unfolding setup_client connect_peer_of
connect a protocol l =
    let (done, l', calls) = setup_client a l in
    let (came, l'', more) = connect_peer_of a protocol l' in
    if done then (came, l'', calls ++ more) else (false, l', calls)

-- `while (enet_host_service(client, nullptr, 1000) > 0)`, with the number of times that it is
-- positive.
unfoldable pub drain : ℕ → List Call
drain zero = service ∷ []
drain (suc n) = service ∷ drain n

-- The thread is joined before this, so nothing else writes the members. Without a peer or a host
-- there is no call for it.
unfoldable pub disconnect : ℕ → Link → Link × List Call
unfolding drain
disconnect n l = (
  record { client = false; peer = false; running = false; thread = false; current_room = [] },
  (if l.peer then disconnect_peer ∷ drain n else [])
      ++ (if l.client then destroy_host ∷ [] else []),
)
