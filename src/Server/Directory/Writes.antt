-- ===== src/Server/Directory/Writes.antt =====
-- Writes to the rooms, and how a table differs from another at one code.
use ynetserver_enet.Base.{
  ℕ, ◌≡◌, refl, sym, ap, ◌∙◌, Option, none, some, false, Bytes, bytes_eq, bytes_eq_iff, bytes_key,
  nat_key, inl, inr, arith, Bool-cases, Option-cases,
}
use ynetserver_enet.Base.Dict.{Dict, lookup, lookup-assign, lookup-erase}
use ynetserver_enet.Room.{Peer, Room, Client}
use ynetserver_enet.Server.{Server, World, set_room, set_client, get_client_for_peer}
use ynetserver_enet.Server.Leave.{remove_room, clear_client}
use ynetserver_enet.Server.Directory.{seat_of, directory, Becomes}

-- `x` stands under `code`, and all else is as in `rooms`.
pub record Now (rooms : Dict Bytes Room) (code : Bytes) (x : Option Room) (s : Server)
    : Type 0 where
  pub here : lookup code s.rooms ≡ x
  pub elsewhere : (c : Bytes) → bytes_eq code c ≡ false → lookup c s.rooms ≡ lookup c rooms

pub Now-Becomes :
    {rooms : Dict Bytes Room} {code : Bytes} {x : Option Room} {s : Server}
    → Now rooms code x s
    → Becomes code (seat_of x) (directory rooms) (directory s.rooms)
Now-Becomes {rooms} {code} {x} {s} now c = elim (Bool-cases (bytes_eq code c)) [
  | inl same ↦
      let e : code ≡ c = (bytes_eq_iff code c).0 same in
      rw same (ap (λ k. seat_of (lookup k s.rooms)) (sym e) ∙ ap seat_of now.here)
  | inr other ↦ rw other (ap seat_of (now.elsewhere c other))
]

pub start-Now :
    (code : Bytes) (x : Option Room) (s : Server) → lookup code s.rooms ≡ x → Now s.rooms code x s
start-Now code x s h = record { here = h; elsewhere = λ c n. refl }

module _ {rooms : Dict Bytes Room} {code : Bytes} {x : Option Room} where
  pub set_client-Now :
      (p : Peer) (c : Client) (w : World)
      → Now rooms code x w.server
      → Now rooms code x (set_client p c w).server
  unfolding set_client
  set_client-Now p c w now = record { here = now.here; elsewhere = now.elsewhere }

  pub clear_client-Now :
      (p : Peer) (w : World)
      → Now rooms code x w.server
      → Now rooms code x (clear_client p w).server
  unfolding clear_client
  clear_client-Now p w now = elim (Option-cases (get_client_for_peer p w)) [
    | inl n ↦ rw (n, clear_client) now
    | inr (c, e) ↦ rw (e, clear_client) (set_client-Now p _ w now)
  ]

  pub remove_room-Now :
      (id : ℕ) (w : World)
      → Now rooms code x w.server
      → Now rooms code none (remove_room code id w).server
  unfolding remove_room
  remove_room-Now id w now = record {
    here = ground (arith, lookup-erase code code w.rooms, bytes_eq_iff code code);
    elsewhere = λ c n. ground (arith, lookup-erase code c w.rooms, now.elsewhere c n);
  }

pub set_room-Now :
    {rooms : Dict Bytes Room} {code : Bytes} (r r' : Room) (w : World)
    → Now rooms code (some r) w.server
    → Now rooms code (some r') (set_room code r' w).server
unfolding set_room
set_room-Now {rooms} {code} r r' w now = record {
  here = ground (arith, lookup-assign code code r' r w.rooms now.here, bytes_eq_iff code code);
  elsewhere = λ c n. ground (arith, lookup-assign code c r' r w.rooms now.here, now.elsewhere c n);
}
