-- ===== src/Server/Liveness/Players.antt =====
-- ynetserver.cpp: the size of the list of players that a newcomer gets.
use ynetserver_enet.Base.{
  ℕ, ◌+◌, ◌*◌, ◌≤◌, ◌<◌, ◌≡◌, [], ◌∷◌, ◌++◌, List, some, not, bytes, length, length-append, map,
  keep, nat_key, inl, inr, arith, Bool-cases, Option-cases, ◌==◌, keep-yes, keep-no,
}
use ynetserver_enet.Base.Dict.{Dict, lookup, put, assign}
use ynetserver_enet.Text.{to_string}
use ynetserver_enet.Text.Decimal.{length-to_string}
use ynetserver_enet.Room.{Peer, Room}
use ynetserver_enet.Server.Join.{host_id, player_ids, json_players, quoted}
use ynetserver_enet.Server.Liveness.{SmallIds}

AllSmall : List ℕ → Type 0
AllSmall [] = Unit
AllSmall (id ∷ ids) = (id < 65536) × AllSmall ids

quoted-le : (ids : List ℕ) → AllSmall ids → length (quoted ids) ≤ 8 * length ids
unfolding AllSmall quoted
quoted-le [] h = omega arith
quoted-le (id ∷ []) h = omega (
  arith,
  length-append (to_string id) (bytes "\""),
  length-to_string id 5 (omega arith) (omega arith),
)
quoted-le (id ∷ k ∷ ids) h = omega (
  arith,
  length-append (to_string id) (bytes "\"," ++ quoted (k ∷ ids)),
  length-to_string id 5 (omega arith) (omega arith),
  quoted-le (k ∷ ids) h.1,
)

kept-AllSmall :
    (host : Peer) (members : Dict Peer ℕ)
    → SmallIds members
    → AllSmall (map (λ e. e.1) (keep (λ e. not (e.0 == host)) members))
      × (length (map (λ e. e.1) (keep (λ e. not (e.0 == host)) members)) ≤ length members)
unfolding AllSmall
kept-AllSmall host [] h = (tt, omega arith)
kept-AllSmall host ((p, id) ∷ members) h =
    let (small, short) = kept-AllSmall host members h.1 in
    let other = λ (e : Peer × ℕ). not (e.0 == host) in
    elim (Bool-cases (p == host)) [
      | inl e ↦ rw (keep-no other (p, id) members (ground arith)) (small, omega arith)
      | inr e ↦ rw (keep-yes other (p, id) members (ground arith)) ((h.0, small), omega arith)
    ]

lookup-small :
    (p : Peer) (id : ℕ) (members : Dict Peer ℕ)
    → SmallIds members
    → lookup p members ≡ some id
    → id < 65536
unfolding lookup
lookup-small p id [] h e = absurd (ground arith)
lookup-small p id ((q, k) ∷ members) h e = elim (Bool-cases (q == p)) [
  | inl same ↦ ground arith
  | inr other ↦ lookup-small p id members h.1 (ground arith)
]

host_id-small : (r : Room) → SmallIds r.clients → host_id r < 65536
unfolding host_id
host_id-small r h = elim (Option-cases (lookup r.host r.clients)) [
  | inl n ↦ rw (n, host_id) (omega arith)
  | inr (id, e) ↦ rw (e, host_id) (lookup-small r.host id r.clients h e)
]

pub json_players-le :
    (r : Room)
    → SmallIds r.clients
    → length (json_players (player_ids r)) ≤ 8 * length r.clients + 10
unfolding json_players player_ids AllSmall
json_players-le r h =
    let kept = kept-AllSmall r.host r.clients h in
    let ids = map (λ e. e.1) (keep (λ e. not (e.0 == r.host)) r.clients) in
    omega (
      arith,
      length-append (quoted (host_id r ∷ ids)) (bytes "]"),
      quoted-le (host_id r ∷ ids) (host_id-small r h, kept.0),
      kept.1,
    )

assign-SmallIds :
    (p : Peer) (id : ℕ) (members : Dict Peer ℕ)
    → id < 65536
    → SmallIds members
    → SmallIds (assign p id members)
unfolding assign
assign-SmallIds p id [] below h = tt
assign-SmallIds p id ((q, k) ∷ members) below h = elim (Bool-cases (q == p)) [
  | inl e ↦ rw e (below, h.1)
  | inr e ↦ rw e (h.0, assign-SmallIds p id members below h.1)
]

pub put-SmallIds :
    (p : Peer) (id : ℕ) (members : Dict Peer ℕ)
    → id < 65536
    → SmallIds members
    → SmallIds (put p id members)
unfolding put
put-SmallIds p id members below h = elim (Option-cases (lookup p members)) [
  | inl n ↦ rw (n, put) (below, h)
  | inr (k, e) ↦ rw (e, put) (assign-SmallIds p id members below h)
]
