-- ===== src/Server/Invariant/Clients.antt =====
-- The table of clients under a connection, a change of one client and a disconnection.
use ynetserver_enet.Base.{
  ℕ, List, ◌≤◌, ◌≡◌, ◌≢◌, ◌⊎◌, sym, ◌∙◌, false, Option, none, some, nat_key, inl, inr, arith, ◌==◌,
  Bool-cases, Option-cases,
}
use ynetserver_enet.Base.Dict.{
  Dict, lookup, insert, assign, erase, contains, include, exclude, lookup-insert, lookup-assign,
  lookup-erase, contains-include, contains-exclude,
}
use ynetserver_enet.Room.{Peer, Client}
use ynetserver_enet.Server.Invariant.{ClientsOk}

abbrev pub id_of : Peer → Dict Peer Client → Option ℕ
id_of p clients = elim (lookup p clients) [ none ↦ none | some c ↦ some c.id ]

-- The same peers with the same ids.
abbrev pub SameIds : Dict Peer Client → Dict Peer Client → Type 0
SameIds a b = (p : Peer) → id_of p a ≡ id_of p b

-- A client that is there with an id was there with it before.
pub id_of-old :
    (p : Peer) (a b : Dict Peer Client) (c : Client)
    → id_of p b ≡ id_of p a
    → lookup p b ≡ some c
    → (d : Client) × (lookup p a ≡ some d) × (c.id ≡ d.id)
id_of-old p a b c same e = elim (Option-cases (lookup p a)) [
  | inl n ↦ absurd (ground arith)
  | inr (d, f) ↦ (d, f, ground arith)
]

module _ {a b : Dict Peer Client} {used : List ℕ} where
  pub ClientsOk-same : ClientsOk a used → SameIds b a → ClientsOk b used
  ClientsOk-same ok same = record {
    id_used =
        λ p c e. let (d, f, i) = id_of-old p a b c (same p) e in ground (arith, ok.id_used p d f);
    id_range = λ p c e.
        let (d, f, i) = id_of-old p a b c (same p) e in
        let (lo, hi) = ok.id_range p d f in (omega arith, omega arith);
    id_distinct = λ p q c d e f i.
        let (c', e', j) = id_of-old p a b c (same p) e in
        let (d', f', k) = id_of-old q a b d (same q) f in
        ok.id_distinct p q c' d' e' f' (sym j ∙ i ∙ k);
  }

module _ (clients : Dict Peer Client) (p : Peer) (c : Client) where
  insert-cases :
      (q : Peer) (d : Client)
      → lookup q (insert p c clients) ≡ some d
      → ((p ≡ q) × (c ≡ d)) ⊎ ((p ≢ q) × (lookup q clients ≡ some d))
  insert-cases q d e = elim (Bool-cases (p == q)) [
    | inl same ↦ inl (ground arith, ground (arith, lookup-insert p q c clients))
    | inr other ↦ inr (λ h. ground arith, ground (arith, lookup-insert p q c clients))
  ]

  erase-cases :
      (q : Peer) (d : Client)
      → lookup q (erase p clients) ≡ some d
      → (p ≢ q) × (lookup q clients ≡ some d)
  erase-cases q d e = elim (Bool-cases (p == q)) [
    | inl same ↦ absurd (ground (arith, lookup-erase p q clients))
    | inr other ↦ (λ h. ground arith, ground (arith, lookup-erase p q clients))
  ]

  -- A change that keeps the id.
  pub assign-SameIds : id_of p clients ≡ some c.id → SameIds (assign p c clients) clients
  assign-SameIds known q = elim (Option-cases (lookup p clients)) [
    | inl n ↦ absurd (ground arith)
    | inr (old, e) ↦ ground (arith, lookup-assign p q c old clients e)
  ]

  pub ClientsOk-insert :
      {used : List ℕ}
      → ClientsOk clients used
      → contains c.id used ≡ false
      → (1000 ≤ c.id) × (c.id ≤ 65535)
      → ClientsOk (insert p c clients) (include c.id used)
  ClientsOk-insert {used} ok fresh range = record {
    id_used = λ q d e. elim (insert-cases q d e) [
      | inl (same, it) ↦ ground (arith, contains-include c.id d.id used)
      | inr (other, old) ↦ ground (arith, contains-include c.id d.id used, ok.id_used q d old)
    ];
    id_range = λ q d e. elim (insert-cases q d e) [
      | inl (same, it) ↦ ground arith
      | inr (other, old) ↦ ok.id_range q d old
    ];
    id_distinct = λ q o d u e f i. elim (insert-cases q d e) [
      | inl (at_q, it) ↦ elim (insert-cases o u f) [
        | inl (at_o, it') ↦ sym at_q ∙ at_o
        | inr (other, old) ↦ absurd (ground (arith, ok.id_used o u old))
      ]
      | inr (other, old) ↦ elim (insert-cases o u f) [
        | inl (at_o, it') ↦ absurd (ground (arith, ok.id_used q d old))
        | inr (other', old') ↦ ok.id_distinct q o d u old old' i
      ]
    ];
  }

  pub ClientsOk-erase :
      {used : List ℕ}
      → ClientsOk clients used
      → id_of p clients ≡ some c.id
      → ClientsOk (erase p clients) (exclude c.id used)
  ClientsOk-erase {used} ok known = record {
    id_used = λ q d e.
        let (other, old) = erase-cases q d e in
        elim (Option-cases (lookup p clients)) [
          | inl n ↦ absurd (ground arith)
          | inr (o, here) ↦
              let differs : c.id ≢ d.id =
                λ i. other (ok.id_distinct p q o d here old (ground arith)) in
              ground (arith, contains-exclude c.id d.id used, ok.id_used q d old)
        ];
    id_range = λ q d e. ok.id_range q d (erase-cases q d e).1;
    id_distinct = λ q o d u e f. ok.id_distinct q o d u (erase-cases q d e).1 (erase-cases o u f).1;
  }
