-- ===== src/Server/Info/Listing.antt =====
-- ynetserver.cpp: the rooms that `handleGetRoomList` lists.
use ynetserver_enet.Base.{
  ℕ, ◌≡◌, refl, sym, ap, subst, [], ◌∷◌, List, some, none, true, Bool, Bytes, nat_key, bytes_key,
  bytes_eq, bytes_eq_iff, is_empty, length, map, keep, keep-yes, keep-no, Bool-cases, inl, inr,
  arith, ◌||◌, ◌↔◌,
}
use mathlib.Core.List.{Memᴰ}
use mathlib.Core.List.Memᴰ
use ynetserver_enet.Base.Dict.{Dict, lookup}
use ynetserver_enet.Base.Distinct.{Distinct}
use ynetserver_enet.Base.Int.{pos, ◌≤ℤ◌}
use ynetserver_enet.Text.{finds}
use ynetserver_enet.Text.Finds.{Contains, finds-Contains, Contains-finds}
use ynetserver_enet.Room.{Room}
use ynetserver_enet.Server.{Server}
use ynetserver_enet.Server.Info.{RoomFilters, is_listed, listed_rooms}
use ynetserver_enet.Server.Invariant.{Inv}

-- What the filters ask of a room.
pub record Passes (f : RoomFilters) (protocol : ℕ) (room : Room) : Type 0 where
  pub same_protocol : room.protocol ≡ protocol
  pub enough : f.min_players ≤ℤ pos (length room.clients)
  pub not_more : pos (length room.clients) ≤ℤ f.max_players
  pub name : Contains f.name_contains room.room_name
  pub extra : Contains f.extra_info_contains room.extra_info

-- An empty filter is found in every text.
empty-Contains : (p s : Bytes) → is_empty p ≡ true → Contains p s
empty-Contains [] s h = ([], s, refl)
empty-Contains (c ∷ p) s h = absurd (ground arith)

filter-Contains : (p s : Bytes) → (is_empty p || finds p s) ≡ true → Contains p s
filter-Contains p s h = elim (Bool-cases (is_empty p)) [
  | inl e ↦ empty-Contains p s e
  | inr e ↦ finds-Contains p s (ground arith)
]

is_listed-Passes :
    (f : RoomFilters) (protocol : ℕ) (room : Room)
    → is_listed f protocol room ≡ true
    → Passes f protocol room
unfolding is_listed
is_listed-Passes f protocol room h = record {
  same_protocol = ground arith;
  enough = ground arith;
  not_more = ground arith;
  name = filter-Contains f.name_contains room.room_name (ground arith);
  extra = filter-Contains f.extra_info_contains room.extra_info (ground arith);
}

Passes-is_listed :
    (f : RoomFilters) (protocol : ℕ) (room : Room)
    → Passes f protocol room
    → is_listed f protocol room ≡ true
unfolding is_listed
Passes-is_listed f protocol room h =
    let protocols = h.same_protocol in
    let enough = h.enough in
    let not_more = h.not_more in
    let name = Contains-finds f.name_contains room.room_name h.name in
    let extra = Contains-finds f.extra_info_contains room.extra_info h.extra in ground arith

-- A room behind an entry of another code.
lookup-behind :
    (c code : Bytes) (q r : Room) (rooms : Dict Bytes Room)
    → lookup c rooms ≡ none
    → lookup code rooms ≡ some r
    → lookup code ((c, q) ∷ rooms) ≡ some r
lookup-behind c code q r rooms other here = elim (Bool-cases (bytes_eq c code)) [
  | inl same ↦
      let e : c ≡ code = (bytes_eq_iff c code).0 same in
      let missing : lookup code rooms ≡ none =
        subst (λ (d : Bytes). lookup d rooms ≡ none) e other in
      absurd (ground arith)
  | inr differ ↦ unfold lookup in ground arith
]

module _ (f : RoomFilters) (protocol : ℕ) (r : Room) where
  passes : Bytes × Room → Bool
  passes e = is_listed f protocol e.1

  abbrev Found : Dict Bytes Room → Type 0
  Found rooms = (code : Bytes) × (lookup code rooms ≡ some r) × (is_listed f protocol r ≡ true)

  Found-behind :
      (c : Bytes) (q : Room) (rooms : Dict Bytes Room)
      → lookup c rooms ≡ none
      → Found rooms
      → Found ((c, q) ∷ rooms)
  Found-behind c q rooms other (code, here, listed) =
      (code, lookup-behind c code q r rooms other here, listed)

  Found-cons :
      (c : Bytes) (q : Room) (rooms : Dict Bytes Room) (rest : List Room)
      → lookup c rooms ≡ none
      → is_listed f protocol q ≡ true
      → (Memᴰ r rest → Found rooms)
      → Memᴰ r (q ∷ rest)
      → Found ((c, q) ∷ rooms)
  unfolding lookup
  Found-cons c q rooms rest other listed later (Memᴰ.head e) = (
    c,
    ground (arith, bytes_eq_iff c c),
    subst (λ (x : Room). is_listed f protocol x ≡ true) (sym e) listed,
  )
  Found-cons c q rooms rest other listed later (Memᴰ.tail m) =
      Found-behind c q rooms other (later m)

  listed_rooms-Found :
      (rooms : Dict Bytes Room)
      → Distinct rooms
      → Memᴰ r (listed_rooms f protocol rooms)
      → Found rooms
  unfolding listed_rooms passes
  listed_rooms-Found [] d h = absurd (Memᴰ.not-nil h)
  listed_rooms-Found ((c, q) ∷ rooms) d h =
      let rest = map (λ e. e.1) (keep passes rooms) in
      let later = listed_rooms-Found rooms d.1 in
      elim (Bool-cases (is_listed f protocol q)) [
        | inl yes_listed ↦
            let split = ap (map (λ e. e.1)) (keep-yes passes (c, q) rooms yes_listed) in
            Found-cons c q rooms rest d.0 yes_listed later (subst (Memᴰ r) split h)
        | inr not_listed ↦
            let split = ap (map (λ e. e.1)) (keep-no passes (c, q) rooms not_listed) in
            Found-behind c q rooms d.0 (later (subst (Memᴰ r) split h))
      ]

  Found-listed_rooms :
      (code : Bytes) (rooms : Dict Bytes Room)
      → lookup code rooms ≡ some r
      → is_listed f protocol r ≡ true
      → Memᴰ r (listed_rooms f protocol rooms)
  unfolding listed_rooms passes lookup
  Found-listed_rooms code [] here listed = absurd (ground arith)
  Found-listed_rooms code ((c, q) ∷ rooms) here listed = elim (Bool-cases (bytes_eq c code)) [
    | inl same ↦
        let e : q ≡ r = ground arith in
        let good : is_listed f protocol q ≡ true =
          subst (λ (x : Room). is_listed f protocol x ≡ true) (sym e) listed in
        rw (keep-yes passes (c, q) rooms good) (Memᴰ.head (sym e))
    | inr other ↦
        let later = Found-listed_rooms code rooms (ground arith) listed in
        elim (Bool-cases (is_listed f protocol q)) [
          | inl yes_listed ↦ rw (keep-yes passes (c, q) rooms yes_listed) (Memᴰ.tail later)
          | inr not_listed ↦ rw (keep-no passes (c, q) rooms not_listed) later
        ]
  ]

-- In a state that satisfies the invariant, a room is listed exactly if it stands under some code,
-- has the client's protocol, has as many players as the filters allow, and its name and extra info
-- have the texts in them that the filters ask for.
pub listed_rooms-Passes :
    (s : Server) (f : RoomFilters) (protocol : ℕ) (r : Room)
    → Inv s
    → Memᴰ r (listed_rooms f protocol s.rooms)
      ↔ ((code : Bytes) × (lookup code s.rooms ≡ some r) × Passes f protocol r)
listed_rooms-Passes s f protocol r inv = (
  λ m.
      let (code, here, listed) = listed_rooms-Found f protocol r s.rooms inv.rooms.distinct m in
      (code, here, is_listed-Passes f protocol r listed),
  λ (code, here, passing).
      Found-listed_rooms f protocol r code s.rooms here (Passes-is_listed f protocol r passing),
)
