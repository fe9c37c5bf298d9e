-- ===== src/Server/Leave/Clearing.antt =====
-- ynetserver.cpp: the loop of `handleRoomLeave` that dismisses the members of a room.
use ynetserver_enet.Base.{
  ℕ, ◌≤◌, ◌<◌, ◌^◌, ◌≡◌, ◌≢◌, ◌⊎◌, refl, sym, [], ◌∷◌, none, some, true, nat_key, bytes_key, length,
  inl, inr, arith, Bool-cases, Option-cases, ◌==◌, subst, ◌∙◌,
}
use ynetserver_enet.Base.Dict.{Dict, lookup, has, lookup-assign, lookup-assign_missing}
use ynetserver_enet.Stream.{Stream, Laws}
use ynetserver_enet.Message.{player_left, host_left}
use ynetserver_enet.Text.{to_string}
use ynetserver_enet.Text.Decimal.{length-to_string}
use ynetserver_enet.Room.{Peer, Room, Client}
use ynetserver_enet.Server.{Server, World, emit, set_client, get_client_for_peer}
use ynetserver_enet.Server.Send.{for_each}
use ynetserver_enet.Server.Leave.{forget_room, first_peer, clear_client, dismiss}
use ynetserver_enet.Server.Yields.{
  Yields, Yields-some, Yields-bind, Yields-send_text, Yields-send_error, Yields-weaken,
}

-- A client that is in no room.
abbrev pub Roomless : Peer → Server → Type 0
Roomless p s = (c : Client) → lookup p s.clients ≡ some c → (c.current_room ≡ []) × (c.room_id ≡ 0)

-- A write of a roomless client.
pub set_client-Roomless :
    (p q : Peer) (c : Client) (w : World)
    → (p ≡ q) ⊎ Roomless q w.server
    → Roomless q (set_client p (forget_room c) w).server
unfolding set_client forget_room
set_client-Roomless p q c w h d e = elim (Bool-cases (p == q)) [
  | inl same ↦ elim (Option-cases (lookup p w.clients)) [
    | inl n ↦ absurd (ground (arith, lookup-assign_missing p q (forget_room c) w.clients n))
    | inr (old, f) ↦ ground (arith, lookup-assign p q (forget_room c) old w.clients f)
  ]
  | inr other ↦ elim h [
    | inl same ↦ absurd (ground arith)
    | inr before ↦ elim (Option-cases (lookup p w.clients)) [
      | inl n ↦ before d (sym (lookup-assign_missing p q (forget_room c) w.clients n) ∙ e)
      | inr (old, f) ↦ before d (ground (arith, lookup-assign p q (forget_room c) old w.clients f))
    ]
  ]
]

unknown-Roomless :
    (p q : Peer) (w : World) → get_client_for_peer p w ≡ none → p ≡ q → Roomless q w.server
unfolding get_client_for_peer
unknown-Roomless p q w n same c e = absurd (ground arith)

-- What a step of the loop that closes a room keeps, and what it gives.
pub record Clears (done : Peer → Type 0) (s₀ s : Server) : Type 0 where
  pub same_rooms : s.rooms ≡ s₀.rooms
  pub same_ids : s.used_room_ids ≡ s₀.used_room_ids
  pub roomless : (q : Peer) → done q ⊎ Roomless q s₀ → Roomless q s

clear_client-Clears :
    (p : Peer) (w : World) → Clears (λ q. p ≡ q) w.server (clear_client p w).server
unfolding clear_client get_client_for_peer
clear_client-Clears p w = elim (Option-cases (lookup p w.clients)) [
  | inl n ↦
      rw (n, clear_client)
        (record {
          same_rooms = refl;
          same_ids = refl;
          roomless =
              λ q h. elim h [ inl same ↦ λ c e. absurd (ground arith) | inr before ↦ before ];
        })
  | inr (c, e) ↦
      rw (e, clear_client)
        (record {
          same_rooms = unfold set_client in refl;
          same_ids = unfold set_client in refl;
          roomless = λ q h. set_client-Roomless p q c w h;
        })
]

-- The members of a room, 0 apart, which is no peer.
abbrev pub Among : Dict Peer ℕ → Peer → Type 0
Among members q = (q ≢ 0) × (has q members ≡ true)

Among-nil : (q : Peer) → Among [] q → ⊥
unfolding lookup
Among-nil q h = absurd (ground arith)

Among-cons :
    (p i q : ℕ) (members : Dict Peer ℕ) → Among ((p, i) ∷ members) q → (p ≡ q) ⊎ Among members q
unfolding lookup
Among-cons p i q members (other, h) = elim (Bool-cases (p == q)) [
  | inl same ↦ inl (ground arith)
  | inr e ↦ inr (other, rw e at h)
]

Clears-then :
    {A B : Peer → Type 0} {s₀ s₁ s₂ : Server}
    → Clears A s₀ s₁
    → Clears B s₁ s₂
    → Clears (λ q. A q ⊎ B q) s₀ s₂
Clears-then a b = record {
  same_rooms = b.same_rooms ∙ a.same_rooms;
  same_ids = b.same_ids ∙ a.same_ids;
  roomless = λ q h. elim h [
    | inl done ↦ elim done [
      | inl at_a ↦ b.roomless q (inr (a.roomless q (inl at_a)))
      | inr at_b ↦ b.roomless q (inl at_b)
    ]
    | inr before ↦ b.roomless q (inr (a.roomless q (inr before)))
  ];
}

Clears-of :
    {A B : Peer → Type 0} {s₀ s : Server}
    → Clears A s₀ s
    → ((q : Peer) → B q → A q ⊎ Roomless q s₀)
    → Clears B s₀ s
Clears-of a f = record {
  same_rooms = a.same_rooms;
  same_ids = a.same_ids;
  roomless =
      λ q h. elim h [ inl done ↦ a.roomless q (f q done) | inr before ↦ a.roomless q (inr before) ];
}

pub nobody-Clears :
    (room : Room) → first_peer room.clients ≡ none → (s : Server) → Clears (Among room.clients) s s
nobody-Clears room n s = record {
  same_rooms = refl;
  same_ids = refl;
  roomless = λ q h. elim h [
    | inl among ↦ absurd (Among-none room.clients q n among)
    | inr before ↦ before
  ];
}
  where
    Among-none :
        (members : Dict Peer ℕ) (q : Peer) → first_peer members ≡ none → Among members q → ⊥
    Among-none [] q n among = Among-nil q among
    Among-none ((p, i) ∷ members) q n among = unfold first_peer in absurd (ground arith)

module _ ⦃io : Stream⦄ (laws : Laws io) (id : ℕ) (small : id < 10 ^ 9) where
  short_id : length (to_string id) ≤ 60000
  short_id = omega (arith, length-to_string id 9 small (omega arith))

  pub dismiss-Clears :
      (p : Peer) (w : World) → Yields (λ v. Clears (λ q. p ≡ q) w.server v.server) (dismiss id p w)
  unfolding dismiss emit
  dismiss-Clears p w =
      let Q : World → Type 0 = λ v. Clears (λ q. p ≡ q) w.server v.server in
      let Same : World → Type 0 = λ v. v.server ≡ w.server in
      Yields-bind Same Q _ _ (Yields-send_text laws Same p player_left _ w short_id refl) (λ w₁ h₁.
        Yields-bind Same Q _ _ (Yields-send_text laws Same p host_left _ w₁ short_id h₁) (λ w₂ h₂.
          Yields-bind Same Q _ _ (Yields-send_error laws Same p _ w₂ (omega arith) h₂) (λ w₃ h₃.
            Yields-some Q _ (
              subst (λ (s : Server). Clears (λ q. p ≡ q) s (clear_client p w₃).server) h₃
                (clear_client-Clears p w₃)))))

  pub for_each-Clears :
      (members : Dict Peer ℕ) (w : World)
      → Yields (λ v. Clears (Among members) w.server v.server) (for_each (dismiss id) 0 members w)
  unfolding for_each
  for_each-Clears [] w = Yields-some _ w (record {
    same_rooms = refl;
    same_ids = refl;
    roomless = λ q h. elim h [ inl done ↦ absurd (Among-nil q done) | inr before ↦ before ];
  })
  for_each-Clears ((p, i) ∷ members) w =
      let Q : World → Type 0 = λ v. Clears (Among ((p, i) ∷ members)) w.server v.server in
      let rest = for_each-Clears members in
      elim (Bool-cases (p == 0)) [
        | inl e ↦ rw e (
            Yields-weaken _ Q _
              (λ v h. Clears-of h (λ q among. elim (Among-cons p i q members among) [
                | inl same ↦ absurd (among.0 (ground arith))
                | inr later ↦ inl later
              ]))
              (rest w))
        | inr e ↦ rw e (elim (Option-cases (get_client_for_peer p w)) [
          | inl n ↦ rw n (
              Yields-weaken _ Q _
                (λ v h. Clears-of h (λ q among. elim (Among-cons p i q members among) [
                  | inl same ↦ inr (unknown-Roomless p q w n same)
                  | inr later ↦ inl later
                ]))
                (rest w))
          | inr (c, known) ↦ rw known (
              Yields-bind (λ v. Clears (λ q. p ≡ q) w.server v.server) Q _ _ (dismiss-Clears p w)
                (λ v h.
                  Yields-weaken _ Q _
                    (λ u g.
                      Clears-of (Clears-then h g) (λ q among. inl (Among-cons p i q members among)))
                    (rest v)))
        ])
      ]
