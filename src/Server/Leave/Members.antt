-- ===== src/Server/Leave/Members.antt =====
-- ynetserver.cpp: the member of a room that has a client id.
use ynetserver_enet.Base.{
  ℕ, ◌≡◌, ◌≢◌, refl, List, [], ◌∷◌, ◌++◌, Option, none, some, false, map, keep, keep-yes, keep-no,
  take, nat_key, Bool-cases, inl, inr, arith, ◌==◌,
}
use ynetserver_enet.Base.Dict.{Dict}
use ynetserver_enet.Stream.{Stream}
use ynetserver_enet.Room.{Peer}
use ynetserver_enet.Server.Leave.{find_member}

abbrev pub NoneHas : ℕ → Dict Peer ℕ → Type 0
NoneHas target [] = Unit
NoneHas target ((p, id) ∷ members) = (id ≢ target) × NoneHas target members

-- `p` is the first member with the client id.
pub record IsFirst (target : ℕ) (p : Peer) (members : Dict Peer ℕ) : Type 0 where
  pub before : Dict Peer ℕ
  pub after : Dict Peer ℕ
  pub split : members ≡ before ++ ((p, target) ∷ after)
  pub none_before : NoneHas target before

find_member-append :
    ⦃io : Stream⦄ (target : ℕ) (p : Peer) (before after : Dict Peer ℕ)
    → NoneHas target before
    → find_member target (before ++ ((p, target) ∷ after)) ≡ some p
unfolding find_member
find_member-append target p [] after h = ground arith
find_member-append target p ((q, id) ∷ before) after h =
    let differs : (id == target) ≡ false = ground (arith, h.0) in
    rw differs (find_member-append target p before after h.1)

pub find_member-IsFirst :
    ⦃io : Stream⦄ (target : ℕ) (p : Peer) (members : Dict Peer ℕ)
    → IsFirst target p members
    → find_member target members ≡ some p
find_member-IsFirst target p members h =
    rw h.split (find_member-append target p h.before h.after h.none_before)

-- The first peer with the client id, if there is one.
abbrev pub first_with : ℕ → Dict Peer ℕ → List Peer
first_with target members = take 1 (map (λ e. e.0) (keep (λ e. e.1 == target) members))

abbrev pub to_list : Option Peer → List Peer
to_list none = []
to_list (some p) = p ∷ []

pub first_with-find_member :
    ⦃io : Stream⦄ (target : ℕ) (members : Dict Peer ℕ)
    → first_with target members ≡ to_list (find_member target members)
unfolding find_member
first_with-find_member target [] = refl
first_with-find_member target ((p, id) ∷ members) =
    let has_it = λ (e : Peer × ℕ). e.1 == target in
    elim (Bool-cases (id == target)) [
      | inl same ↦ rw (same, keep-yes has_it (p, id) members same) refl
      | inr other ↦
          rw (other, keep-no has_it (p, id) members other) (first_with-find_member target members)
    ]
