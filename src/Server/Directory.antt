-- ===== src/Server/Directory.antt =====
-- What the room handlers of ynetserver.cpp promise, without their data structures: a directory of
-- rooms as functions, and the steps that it can take.
pub mod Writes
pub mod Enters
pub mod Leaves
pub mod Receives
pub mod Runs
use ynetserver_enet.Base.{
  ℕ, ◌+◌, ◌≤◌, ◌<◌, ◌≡◌, ◌⊎◌, Option, none, some, Bool, true, false, Bytes, bytes_eq, bytes_key,
  nat_key, length, ◌==◌, if◌then◌else◌,
}
use ynetserver_enet.Base.Dict.{Dict, lookup}
use ynetserver_enet.Room.{Peer, Room, Client}
use ynetserver_enet.Room.Code.{is_valid_room_code}

-- A room without its order of members, its ids and its texts.
pub record Seat : Type 0 where
  pub host : Peer
  pub members : Peer → Option ℕ
  pub size : ℕ
  pub limit : ℕ
  pub protocol : ℕ
  pub is_private : Bool
  pub migrates : Bool

abbrev pub seat : Room → Seat
seat r = record {
  host = r.host;
  members = λ p. lookup p r.clients;
  size = length r.clients;
  limit = r.max_players;
  protocol = r.protocol;
  is_private = r.is_private;
  migrates = r.can_host_migrate;
}

abbrev pub Directory : Type 0
Directory = Bytes → Option Seat

abbrev pub seat_of : Option Room → Option Seat
seat_of none = none
seat_of (some r) = some (seat r)

abbrev pub directory : Dict Bytes Room → Directory
directory rooms code = seat_of (lookup code rooms)

-- Only what stands under `code` changes.
abbrev pub Becomes : Bytes → Option Seat → Directory → Directory → Type 0
Becomes code x d d' = (c : Bytes) → d' c ≡ (if bytes_eq code c then x else d c)

-- One more member, everything else as it was.
pub record OneMore (p : Peer) (id : ℕ) (s s' : Seat) : Type 0 where
  pub same_host : s'.host ≡ s.host
  pub joined : (q : Peer) → s'.members q ≡ (if p == q then some id else s.members q)
  pub bounded : s'.size ≤ s.limit
  pub same_limit : s'.limit ≡ s.limit
  pub same_protocol : s'.protocol ≡ s.protocol
  pub same_privacy : s'.is_private ≡ s.is_private
  pub same_migration : s'.migrates ≡ s.migrates

-- One member less, and `host` is the host now.
pub record OneLess (p host : Peer) (s s' : Seat) : Type 0 where
  pub hosted : s'.host ≡ host
  pub gone : (q : Peer) → s'.members q ≡ (if p == q then none else s.members q)
  pub same_limit : s'.limit ≡ s.limit
  pub same_protocol : s'.protocol ≡ s.protocol
  pub same_privacy : s'.is_private ≡ s.is_private
  pub same_migration : s'.migrates ≡ s.migrates

-- Which protocol version a connected peer speaks.
abbrev pub Protocols : Type 0
Protocols = Peer → Option ℕ

abbrev pub version_of : Option Client → Option ℕ
version_of none = none
version_of (some c) = some c.protocol_version

abbrev pub protocols : Dict Peer Client → Protocols
protocols clients p = version_of (lookup p clients)

-- The steps, where peers speak certain protocols: a peer opens a room that nobody had, of its own
-- protocol; enters one that is public, of its protocol and has space; a guest leaves; the host
-- leaves to another member; a room is closed; its settings change, and neither its host nor its
-- members nor its protocol.
pub data Step (speaks : Protocols) (d d' : Directory) : Type 0 where
  opens :
      (code : Bytes) (p : Peer) (id : ℕ) (s : Seat)
      → d code ≡ none
      → is_valid_room_code code ≡ true
      → s.host ≡ p
      → ((q : Peer) → s.members q ≡ (if p == q then some id else none))
      → s.size ≡ 1
      → speaks p ≡ some s.protocol
      → Becomes code (some s) d d'
      → Step speaks d d'
  enters :
      (code : Bytes) (p : Peer) (id : ℕ) (s s' : Seat)
      → d code ≡ some s
      → s.is_private ≡ false
      → speaks p ≡ some s.protocol
      → s.size < s.limit
      → OneMore p id s s'
      → Becomes code (some s') d d'
      → Step speaks d d'
  leaves :
      (code : Bytes) (p : Peer) (s s' : Seat)
      → d code ≡ some s
      → (s.host == p) ≡ false
      → OneLess p s.host s s'
      → Becomes code (some s') d d'
      → Step speaks d d'
  hands_over :
      (code : Bytes) (p q : Peer) (id : ℕ) (s s' : Seat)
      → d code ≡ some s
      → s.host ≡ p
      → s.migrates ≡ true
      → s'.members q ≡ some id
      → OneLess p q s s'
      → Becomes code (some s') d d'
      → Step speaks d d'
  closes : (code : Bytes) (s : Seat) → d code ≡ some s → Becomes code none d d' → Step speaks d d'
  configures :
      (code : Bytes) (s s' : Seat)
      → d code ≡ some s
      → s'.host ≡ s.host
      → ((q : Peer) → s'.members q ≡ s.members q)
      → s'.size ≡ s.size
      → s'.protocol ≡ s.protocol
      → Becomes code (some s') d d'
      → Step speaks d d'

-- Nothing changes, or one step is taken.
pub Refines : Protocols → Dict Bytes Room → Dict Bytes Room → Type 0
Refines speaks rooms rooms' =
    ((c : Bytes) → directory rooms' c ≡ directory rooms c)
    ⊎ Step speaks (directory rooms) (directory rooms')
