-- ===== src/Server/Ids/Search.antt =====
-- ynetserver.cpp: the two searches for an unused id.
use ynetserver_enet.Base.{
  ℕ, zero, suc, ◌+◌, ◌-◌, ◌%◌, ◌≤◌, ◌<◌, ◌≡◌, ◌≢◌, subst, false, List, none, some, inl, inr, arith,
  Bool-cases, ◌==◌, Option-cases, ltb, if◌then◌else◌,
}
use ynetserver_enet.Base.Dict.{contains, include}
use ynetserver_enet.Server.{Server}
use ynetserver_enet.Server.Ids.{
  max_room_id, min_client_id, next_room, next_client, find_room_id, generate_room_id,
  find_client_id, generate_client_id,
}

find_room_id-unused :
    (f next id : ℕ) (used : List ℕ)
    → next < 65536
    → find_room_id f next used ≡ some id
    → (contains id used ≡ false) × (id < 65536)
unfolding find_room_id
find_room_id-unused zero next id used h e = cc
find_room_id-unused (suc f) next id used h e = elim (Bool-cases (contains next used)) [
  | inl taken ↦ find_room_id-unused f (next_room next) id used (omega arith) (rw taken at e)
  | inr free ↦ ground arith
]

-- With d ids to go until a free one, d + 1 rounds find one.
find_room_id-total :
    (f d next free : ℕ) (used : List ℕ)
    → next < 65536
    → free ≡ (next + d) % 65536
    → d < f
    → contains free used ≡ false
    → find_room_id f next used ≢ none
unfolding find_room_id
find_room_id-total zero d next free used h at h' u = absurd (omega arith)
find_room_id-total (suc f) zero next free used h at h' u =
    let here : free ≡ next = omega arith in
    let clear : contains next used ≡ false = rw here at u in rw clear (λ e. cc)
find_room_id-total (suc f) (suc d) next free used h at h' u =
    elim (Bool-cases (contains next used)) [
      | inl taken ↦ rw taken (
          find_room_id-total f d (next_room next) free used (omega arith) (omega arith)
            (omega arith) u)
      | inr clear ↦ rw clear (λ e. cc)
    ]

-- With the next room id a 16-bit number, a room id that is found was free and is a 16-bit number;
-- it is marked as used, the search goes on behind it, and nothing else changes.
pub generate_room_id-unused :
    (s s' : Server) (id : ℕ)
    → s.next_room_id < 65536
    → generate_room_id s ≡ some (id, s')
    → (contains id s.used_room_ids ≡ false)
      × (id < 65536)
      × (s' ≡ record s { used_room_ids = include id s.used_room_ids; next_room_id = next_room id })
unfolding generate_room_id
generate_room_id-unused s s' id h e =
    elim (Option-cases (find_room_id (max_room_id + 1) s.next_room_id s.used_room_ids)) [
      | inl n ↦ absurd (ground arith)
      | inr (k, f) ↦
          let (free, below) =
            find_room_id-unused (max_room_id + 1) s.next_room_id k s.used_room_ids h f in
          (ground arith, ground arith, ground arith)
    ]

-- With the next room id a 16-bit number, the search for a room id ends whenever one of the 65536
-- ids is free.
pub generate_room_id-total :
    (s : Server) (free : ℕ)
    → s.next_room_id < 65536
    → free < 65536
    → contains free s.used_room_ids ≡ false
    → (id : ℕ) × (s' : Server) × (generate_room_id s ≡ some (id, s'))
unfolding generate_room_id
generate_room_id-total s free h below u =
    elim (Option-cases (find_room_id (max_room_id + 1) s.next_room_id s.used_room_ids)) [
      | inl n ↦ absurd (
          find_room_id-total (max_room_id + 1) ((free + 65536 - s.next_room_id) % 65536)
            s.next_room_id free s.used_room_ids h (omega arith) (omega arith) u n)
      | inr (k, f) ↦ (
        k,
        record s { used_room_ids = include k s.used_room_ids; next_room_id = next_room k },
        rw f,
      )
    ]

find_client_id-unused :
    (f start next id : ℕ) (used : List ℕ)
    → (1000 ≤ next) × (next ≤ 65535)
    → find_client_id f start next used ≡ some id
    → (contains id used ≡ false) × (1000 ≤ id) × (id ≤ 65535)
unfolding find_client_id
find_client_id-unused zero start next id used h e = cc
find_client_id-unused (suc f) start next id used (lo, hi) e =
    elim (Bool-cases (contains next used)) [
      | inr free ↦ ground arith
      | inl taken ↦ elim (Bool-cases (next_client next == start)) [
        | inl back ↦ absurd (ground arith)
        | inr on ↦
            find_client_id-unused f start (next_client next) id used (omega arith) (ground arith)
      ]
    ]

-- j ids were looked at, and the next free one lies d further on.
find_client_id-total :
    (f j d start free : ℕ) (used : List ℕ)
    → 1000 ≤ start
    → start ≤ 65535
    → j + d < 64536
    → d < f
    → free ≡ 1000 + (start - 1000 + j + d) % 64536
    → contains free used ≡ false
    → find_client_id f start (1000 + (start - 1000 + j) % 64536) used ≢ none
unfolding find_client_id
find_client_id-total zero j d start free used lo hi room fuel at u = absurd (omega arith)
find_client_id-total (suc f) j zero start free used lo hi room fuel at u =
    let here : free ≡ 1000 + (start - 1000 + j) % 64536 = omega arith in
    let clear : contains (1000 + (start - 1000 + j) % 64536) used ≡ false = rw here at u in
    rw clear (λ e. cc)
find_client_id-total (suc f) j (suc d) start free used lo hi room fuel at u =
    let next : ℕ = 1000 + (start - 1000 + j) % 64536 in
    let step : next_client next ≡ 1000 + (start - 1000 + (j + 1)) % 64536 = omega arith in
    let differs : 1000 + (start - 1000 + (j + 1)) % 64536 ≢ start = omega arith in
    let ahead : (next_client next == start) ≡ false = rw step (ground arith) in
    elim (Bool-cases (contains next used)) [
      | inl taken ↦
          rw (taken, ahead, step)
            (find_client_id-total f (j + 1) d start free used lo hi (omega arith) (omega arith)
              (omega arith) u)
      | inr clear ↦ rw clear (λ e. cc)
    ]

-- From its start the search finds a free id.
find_client_id-from :
    (start free : ℕ) (used : List ℕ)
    → 1000 ≤ start
    → start ≤ 65535
    → 1000 ≤ free
    → free ≤ 65535
    → contains free used ≡ false
    → find_client_id 64536 start start used ≢ none
find_client_id-from start free used lo hi free_lo free_hi u =
    let d : ℕ = (free + 64536 - start) % 64536 in
    let here : 1000 + (start - 1000 + 0) % 64536 ≡ start = omega arith in
    subst (λ n. find_client_id 64536 start n used ≢ none) here
      (find_client_id-total 64536 0 d start free used lo hi (omega arith) (omega arith)
        (omega arith) u)

-- With the next client id a 16-bit number, a client id that is found was free and is from 1000 to
-- 65535; it is marked as used, the search goes on behind it, and nothing else changes.
pub generate_client_id-unused :
    (s s' : Server) (id : ℕ)
    → s.next_client_id ≤ 65535
    → generate_client_id s ≡ some (id, s')
    → (contains id s.used_client_ids ≡ false)
      × (1000 ≤ id)
      × (id ≤ 65535)
      × (s' ≡ record s {
        used_client_ids = include id s.used_client_ids;
        next_client_id = next_client id;
      })
unfolding generate_client_id
generate_client_id-unused s s' id h e =
    let start : ℕ =
      if ltb s.next_client_id min_client_id then min_client_id else s.next_client_id in
    elim (Option-cases (find_client_id 64536 start start s.used_client_ids)) [
      | inl n ↦ absurd (ground arith)
      | inr (k, f) ↦
          let (free, lo, hi) =
            find_client_id-unused 64536 start start k s.used_client_ids (ground arith) f in
          (ground arith, ground arith, ground arith, ground arith)
    ]

-- With the next client id a 16-bit number, a client id is found whenever one from 1000 to 65535 is
-- free.
pub generate_client_id-total :
    (s : Server) (free : ℕ)
    → s.next_client_id ≤ 65535
    → 1000 ≤ free
    → free ≤ 65535
    → contains free s.used_client_ids ≡ false
    → (id : ℕ) × (s' : Server) × (generate_client_id s ≡ some (id, s'))
unfolding generate_client_id
generate_client_id-total s free h lo hi u =
    let start : ℕ =
      if ltb s.next_client_id min_client_id then min_client_id else s.next_client_id in
    let start_lo : 1000 ≤ start = ground arith in
    let start_hi : start ≤ 65535 = ground arith in
    elim (Option-cases (find_client_id 64536 start start s.used_client_ids)) [
      | inl n ↦
          absurd (find_client_id-from start free s.used_client_ids start_lo start_hi lo hi u n)
      | inr (k, f) ↦ (
        k,
        record s { used_client_ids = include k s.used_client_ids; next_client_id = next_client k },
        rw f,
      )
    ]
