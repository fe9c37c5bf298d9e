-- ===== src/Server/Invariant/Rooms.antt =====
-- The table of rooms under an insertion, a change of one room and a removal.
use ynetserver_enet.Base.Distinct.{assign-Distinct, insert-Distinct, erase-Distinct}
use ynetserver_enet.Base.{
  ℕ, List, ◌≡◌, ◌≢◌, ◌⊎◌, refl, sym, ◌∙◌, true, false, Option, none, some, Bytes, bytes_key,
  bytes_eq, bytes_eq_iff, inl, inr, arith, Bool-cases, nat_key,
}
use ynetserver_enet.Base.Dict.{
  Dict, lookup, insert, assign, erase, has, contains, include, exclude, lookup-insert,
  lookup-assign, lookup-erase, contains-include, contains-exclude,
}
use ynetserver_enet.Room.{Room}
use ynetserver_enet.Room.Code.{is_valid_room_code}
use ynetserver_enet.Server.Invariant.{RoomsOk}

module _ (rooms : Dict Bytes Room) (code : Bytes) (r r' : Room) where
  -- Where an entry of the changed table comes from.
  assign-cases :
      (c : Bytes) (q : Room)
      → lookup code rooms ≡ some r
      → lookup c (assign code r' rooms) ≡ some q
      → ((code ≡ c) × (r' ≡ q)) ⊎ ((code ≢ c) × (lookup c rooms ≡ some q))
  assign-cases c q here e = elim (Bool-cases (bytes_eq code c)) [
    | inl same ↦
        inl ((bytes_eq_iff code c).0 same, ground (arith, lookup-assign code c r' r rooms here))
    | inr other ↦
        inr (
          λ p. cc ((bytes_eq_iff code c).1 p),
          ground (arith, lookup-assign code c r' r rooms here),
        )
  ]

  insert-cases :
      (c : Bytes) (q : Room)
      → lookup c (insert code r' rooms) ≡ some q
      → ((code ≡ c) × (r' ≡ q)) ⊎ ((code ≢ c) × (lookup c rooms ≡ some q))
  insert-cases c q e = elim (Bool-cases (bytes_eq code c)) [
    | inl same ↦ inl ((bytes_eq_iff code c).0 same, ground (arith, lookup-insert code c r' rooms))
    | inr other ↦
        inr (λ p. cc ((bytes_eq_iff code c).1 p), ground (arith, lookup-insert code c r' rooms))
  ]

  module _ {used : List ℕ} {gap : Option Bytes} (ok : RoomsOk gap rooms used)
      (here : lookup code rooms ≡ some r) (same_id : r'.room_id ≡ r.room_id)
      (same_code : r'.room_code ≡ r.room_code) where
    -- The room of the old table that an entry of the new one was.
    assign-old :
        (c : Bytes) (q : Room)
        → lookup c (assign code r' rooms) ≡ some q
        → (o : Room) × (lookup c rooms ≡ some o)
          × (q.room_id ≡ o.room_id)
          × (q.room_code ≡ o.room_code)
    assign-old c q e = elim (assign-cases c q here e) [
      | inl (same, it) ↦ (r, ground arith, ground arith, ground arith)
      | inr (other, old) ↦ (q, old, refl, refl)
    ]

    -- A room that keeps its id and its code may change; it fills the gap if its host is a member.
    pub RoomsOk-assign :
        (gap' : Option Bytes)
        → (gap' ≡ some code) ⊎ (has r'.host r'.clients ≡ true)
        → ((c : Bytes) → code ≢ c → gap ≡ some c → gap' ≡ some c)
        → RoomsOk gap' (assign code r' rooms) used
    RoomsOk-assign gap' host gaps = record {
      distinct = assign-Distinct code r' rooms ok.distinct;
      keyed = λ c q e. let (o, f, i, k) = assign-old c q e in k ∙ ok.keyed c o f;
      valid = λ c q e. let (o, f, i, k) = assign-old c q e in ok.valid c o f;
      hosted = λ c q e. elim (assign-cases c q here e) [
        | inl (same, it) ↦ ground (arith, host)
        | inr (other, old) ↦ elim (ok.hosted c q old) [
          | inl g ↦ inl (gaps c other g)
          | inr h ↦ inr h
        ]
      ];
      id_used = λ c q e. let (o, f, i, k) = assign-old c q e in ground (arith, ok.id_used c o f);
      id_distinct = λ c d q u e f same.
          let (o, g, i, k) = assign-old c q e in
          let (p, h, j, l) = assign-old d u f in ok.id_distinct c d o p g h (sym i ∙ same ∙ j);
    }

  -- A new room under a valid code and with an id that is not in use.
  pub RoomsOk-insert :
      {used : List ℕ}
      → RoomsOk none rooms used
      → lookup code rooms ≡ none
      → is_valid_room_code code ≡ true
      → r'.room_code ≡ code
      → contains r'.room_id used ≡ false
      → has r'.host r'.clients ≡ true
      → RoomsOk none (insert code r' rooms) (include r'.room_id used)
  RoomsOk-insert {used} ok absent valid keyed fresh host = record {
    distinct = insert-Distinct code r' rooms absent ok.distinct;
    keyed = λ c q e. elim (insert-cases c q e) [
      | inl (same, it) ↦ cc
      | inr (other, old) ↦ ok.keyed c q old
    ];
    valid = λ c q e. elim (insert-cases c q e) [
      | inl (same, it) ↦ cc
      | inr (other, old) ↦ ok.valid c q old
    ];
    hosted = λ c q e. elim (insert-cases c q e) [
      | inl (same, it) ↦ inr (ground arith)
      | inr (other, old) ↦ ok.hosted c q old
    ];
    id_used = λ c q e. elim (insert-cases c q e) [
      | inl (same, it) ↦ ground (arith, contains-include r'.room_id q.room_id used)
      | inr (other, old) ↦
          ground (arith, contains-include r'.room_id q.room_id used, ok.id_used c q old)
    ];
    id_distinct = λ c d q u e f same. elim (insert-cases c q e) [
      | inl (at_c, it) ↦ elim (insert-cases d u f) [
        | inl (at_d, it') ↦ sym at_c ∙ at_d
        | inr (other, old) ↦ absurd (ground (arith, ok.id_used d u old))
      ]
      | inr (other, old) ↦ elim (insert-cases d u f) [
        | inl (at_d, it') ↦ absurd (ground (arith, ok.id_used c q old))
        | inr (other', old') ↦ ok.id_distinct c d q u old old' same
      ]
    ];
  }

module _ (rooms : Dict Bytes Room) (code : Bytes) (r : Room) where
  erase-cases :
      (c : Bytes) (q : Room)
      → lookup c (erase code rooms) ≡ some q
      → (code ≢ c) × (lookup c rooms ≡ some q)
  erase-cases c q e = elim (Bool-cases (bytes_eq code c)) [
    | inl same ↦ absurd (ground (arith, lookup-erase code c rooms))
    | inr other ↦ (λ p. cc ((bytes_eq_iff code c).1 p), ground (arith, lookup-erase code c rooms))
  ]

  -- Removing the room with the gap, or any room, together with its id.
  pub RoomsOk-erase :
      {used : List ℕ} {gap : Option Bytes}
      → RoomsOk gap rooms used
      → lookup code rooms ≡ some r
      → ((c : Bytes) → gap ≡ some c → code ≡ c)
      → RoomsOk none (erase code rooms) (exclude r.room_id used)
  RoomsOk-erase {used} ok here gaps = record {
    distinct = erase-Distinct code rooms ok.distinct;
    keyed = λ c q e. let (other, old) = erase-cases c q e in ok.keyed c q old;
    valid = λ c q e. let (other, old) = erase-cases c q e in ok.valid c q old;
    hosted = λ c q e.
        let (other, old) = erase-cases c q e in
        elim (ok.hosted c q old) [ inl g ↦ absurd (other (gaps c g)) | inr h ↦ inr h ];
    id_used = λ c q e.
        let (other, old) = erase-cases c q e in
        let differs : r.room_id ≢ q.room_id = λ p. other (ok.id_distinct code c r q here old p) in
        ground (arith, contains-exclude r.room_id q.room_id used, ok.id_used c q old);
    id_distinct = λ c d q u e f same.
        let (other, old) = erase-cases c q e in
        let (other', old') = erase-cases d u f in ok.id_distinct c d q u old old' same;
  }
