-- ===== src/Tcp/Table/Keyed.antt =====
-- The table of connections by its keys.
use actor_network.Prelude.{
  Bool-cases, List, [], ap, arith, false, inl, inr, none, refl, some, some-injective, sym, true,
  ◌∙◌, ◌∷◌, ◌≡◌, ◌≢◌,
}
use actor_network.Tcp.Table.{Conn, ConnId, Tcp, conn_eq, erase_tcb, find_tcb, put_tcb}

conn_eq_refl : (id : ConnId) → conn_eq id id ≡ true
unfolding conn_eq
conn_eq_refl id = ground arith

conn_eq→eq : (x y : ConnId) → conn_eq x y ≡ true → x ≡ y
unfolding conn_eq
conn_eq→eq x y e =
    let a : x.local_ip ≡ y.local_ip = ground arith in
    let b : x.foreign_ip ≡ y.foreign_ip = ground arith in
    let c : x.local_port ≡ y.local_port = ground arith in
    let d : x.foreign_port ≡ y.foreign_port = ground arith in
    λ i. record { local_ip = a i; foreign_ip = b i; local_port = c i; foreign_port = d i }

pub ne→conn_eq : (x y : ConnId) → y ≢ x → conn_eq x y ≡ false
ne→conn_eq x y ne = elim (Bool-cases (conn_eq x y)) [
  | inl e ↦ absurd (ne (sym (conn_eq→eq x y e)))
  | inr e ↦ e
]

conn_eq-other :
    (k id other : ConnId) → conn_eq k id ≡ true → conn_eq id other ≡ false → conn_eq k other ≡ false
unfolding conn_eq
conn_eq-other k id other e f = ground (arith, e, f)

pub find_tcb-put_tcb :
    (id other : ConnId) (t : Conn) (m : List (ConnId × Conn))
    → conn_eq id other ≡ false
    → find_tcb other (put_tcb id t m) ≡ find_tcb other m
unfolding find_tcb put_tcb
find_tcb-put_tcb id other t [] ne = rw ne refl
find_tcb-put_tcb id other t ((k, u) ∷ m) ne =
    let rest = find_tcb-put_tcb id other t m ne in
    elim (Bool-cases (conn_eq k id)) [
      | inl e ↦ rw (e, conn_eq-other k id other e ne) refl
      | inr e ↦ elim (Bool-cases (conn_eq k other)) [
        | inl f ↦ rw (e, f) refl
        | inr f ↦ rw (e, f) rest
      ]
    ]

pub find_tcb-erase_tcb :
    (id other : ConnId) (m : List (ConnId × Conn))
    → conn_eq id other ≡ false
    → find_tcb other (erase_tcb id m) ≡ find_tcb other m
unfolding find_tcb erase_tcb
find_tcb-erase_tcb id other [] ne = refl
find_tcb-erase_tcb id other ((k, u) ∷ m) ne =
    let rest = find_tcb-erase_tcb id other m ne in
    elim (Bool-cases (conn_eq k id)) [
      | inl e ↦ rw (e, conn_eq-other k id other e ne) rest
      | inr e ↦ elim (Bool-cases (conn_eq k other)) [
        | inl f ↦ rw (e, f) refl
        | inr f ↦ rw (e, f) rest
      ]
    ]

find_tcb-put_tcb_same :
    (id : ConnId) (c : Conn) (m : List (ConnId × Conn)) → find_tcb id (put_tcb id c m) ≡ some c
unfolding find_tcb put_tcb
find_tcb-put_tcb_same id c [] = rw (conn_eq_refl id) refl
find_tcb-put_tcb_same id c ((k, u) ∷ m) = elim (Bool-cases (conn_eq k id)) [
  | inl e ↦ rw (e, e) refl
  | inr e ↦ rw (e, e) (find_tcb-put_tcb_same id c m)
]

find_tcb-erase_tcb_same :
    (id : ConnId) (m : List (ConnId × Conn)) → find_tcb id (erase_tcb id m) ≡ none
unfolding find_tcb erase_tcb
find_tcb-erase_tcb_same id [] = refl
find_tcb-erase_tcb_same id ((k, u) ∷ m) = elim (Bool-cases (conn_eq k id)) [
  | inl e ↦ rw e (find_tcb-erase_tcb_same id m)
  | inr e ↦ rw (e, e) (find_tcb-erase_tcb_same id m)
]

-- Every connection of the table is found under its own addresses and ports.
abbrev pub KeyedList : List (ConnId × Conn) → Type 0
KeyedList m = (id : ConnId) (c : Conn) → find_tcb id m ≡ some c → c.own ≡ id

abbrev pub Keyed : Tcp → Type 0
Keyed t = KeyedList t.tcbs

pub one-Keyed : (c : Conn) → KeyedList ((c.own, c) ∷ [])
unfolding find_tcb
one-Keyed c other d found = elim (Bool-cases (conn_eq c.own other)) [
  | inl e ↦
      let kept : some c ≡ some d = rw e at found in
      sym (ap (λ x. x.own) (some-injective c d kept)) ∙ conn_eq→eq c.own other e
  | inr e ↦ (let gone : none ≡ some d = rw e at found in cc)
]

pub put_tcb-Keyed :
    (id : ConnId) (c : Conn) (m : List (ConnId × Conn))
    → c.own ≡ id
    → KeyedList m
    → KeyedList (put_tcb id c m)
put_tcb-Keyed id c m own keyed other d found = elim (Bool-cases (conn_eq id other)) [
  | inl e ↦
      let same = conn_eq→eq id other e in
      let kept : some c ≡ some d =
        sym (find_tcb-put_tcb_same id c m) ∙ ap (λ k. find_tcb k (put_tcb id c m)) same ∙ found in
      sym (ap (λ x. x.own) (some-injective c d kept)) ∙ own ∙ same
  | inr e ↦ keyed other d (sym (find_tcb-put_tcb id other c m e) ∙ found)
]

pub erase_tcb-Keyed :
    (id : ConnId) (m : List (ConnId × Conn)) → KeyedList m → KeyedList (erase_tcb id m)
erase_tcb-Keyed id m keyed other d found = elim (Bool-cases (conn_eq id other)) [
  | inl e ↦
      let gone : none ≡ some d =
        sym (find_tcb-erase_tcb_same id m)
        ∙ ap (λ k. find_tcb k (erase_tcb id m)) (conn_eq→eq id other e)
        ∙ found in
      cc
  | inr e ↦ keyed other d (sym (find_tcb-erase_tcb id other m e) ∙ found)
]
