-- ===== src/Tcp/Table/Isolated.antt =====
-- A segment concerns the connection that it names, and no other.
use actor_network.Prelude.{
  Bool, Bool-cases, Ensures, Ensures-bind, Ensures-if, Ensures_any, List, Option, [], ap, arith,
  false, inl, inr, ltb, none, refl, some, subst, sym, ℕ, ◌*◌, ◌==◌, ◌∙◌, ◌∷◌, ◌≡◌, ◌≢◌,
}
use actor_network.Tcp.Core.{Align, BigEndian}
use actor_network.Tcp.Header.{TcpHdr, read}
use actor_network.Tcp.Seq.{TcpSeq}
use actor_network.Tcp.Table.{
  Conn, ConnId, Listener, Tcp, at_port, conn_eq, conn_id, connected_one, dispatch, find_listener,
  find_tcb, full, inc_pending, is_accepted, is_removed, one_more_pending, put_tcb, received,
  received_hdr, settle, stray, to_listener, to_tcb, told_of, without_conn,
}
use actor_network.Tcp.Table.Keyed.{
  Keyed, KeyedList, erase_tcb-Keyed, find_tcb-erase_tcb, find_tcb-put_tcb, ne→conn_eq,
  put_tcb-Keyed,
}
use actor_network.Tcp.Tcb.{HwFeatures, Tcb}

-- What a segment of `id` leaves: every other connection as it was, the listeners of other ports as they
-- were, and every connection under its own addresses and ports.
pub record Isolated (id : ConnId) (t c : Tcp) : Type 0 where
  pub other_conns : (other : ConnId) → other ≢ id → find_tcb other c.tcbs ≡ find_tcb other t.tcbs
  pub other_ports :
      (port : ℕ)
      → port ≢ id.local_port
      → find_listener port c.listening ≡ find_listener port t.listening
  pub keyed : Keyed c

find_listener-at_port :
    (f : Listener → Listener) (port other : ℕ) (ls : List Listener)
    → ((l : Listener) → (f l).port ≡ l.port)
    → other ≢ port
    → find_listener other (at_port f port ls) ≡ find_listener other ls
unfolding find_listener at_port
find_listener-at_port f port other [] same ne = refl
find_listener-at_port f port other (l ∷ ls) same ne =
    let rest = find_listener-at_port f port other ls same ne in
    elim (Bool-cases (l.port == port)) [
      | inl e ↦
          let other_port : (l.port == other) ≡ false = ground (arith, e, ne) in
          rw (e, same l, other_port) refl
      | inr e ↦ elim (Bool-cases (l.port == other)) [
        | inl g ↦ rw (e, g) refl
        | inr g ↦ rw (e, g) rest
      ]
    ]

settle-Isolated :
    (id : ConnId) (t : Tcp) (c : Conn) → c.own ≡ id → Keyed t → Isolated id t (settle id t c)
settle-Isolated id t c own keyed =
    let held = put_tcb-Keyed id c t.tcbs own keyed in
    record {
      other_conns = λ other ne.
          let ne' = ne→conn_eq id other ne in
          let ne_own = subst (λ k. conn_eq k other ≡ false) (sym own) ne' in
          let put = find_tcb-put_tcb id other c t.tcbs ne' in
          elim (Bool-cases (told_of is_removed c.tcb.signals)) [
            | inl e ↦ rw e (find_tcb-erase_tcb c.own other (put_tcb id c t.tcbs) ne_own ∙ put)
            | inr e ↦ rw e put
          ];
      other_ports = λ port ne. elim (Bool-cases (told_of is_accepted c.tcb.signals)) [
        | inl e ↦ rw e (
            find_listener-at_port connected_one c.own.local_port port t.listening (λ l. refl)
              (λ p. ne (p ∙ ap (λ k. k.local_port) own)))
        | inr e ↦ rw e refl
      ];
      keyed = elim (Bool-cases (told_of is_removed c.tcb.signals)) [
        | inl e ↦ rw e (erase_tcb-Keyed c.own (put_tcb id c t.tcbs) held)
        | inr e ↦ rw e held
      ];
    }

pending-Isolated : (id : ConnId) (t : Tcp) → Keyed t → Isolated id t (one_more_pending id t)
pending-Isolated id t keyed = record {
  other_conns = λ other ne. refl;
  other_ports =
      λ port ne. find_listener-at_port inc_pending id.local_port port t.listening (λ l. refl) ne;
  keyed = keyed;
}

Isolated-trans : (id : ConnId) (t c d : Tcp) → Isolated id t c → Isolated id c d → Isolated id t d
Isolated-trans id t c d v w = record {
  other_conns = λ other ne. w.other_conns other ne ∙ v.other_conns other ne;
  other_ports = λ port ne. w.other_ports port ne ∙ v.other_ports port ne;
  keyed = w.keyed;
}

module _ (be : BigEndian) (core : Align) (hw : HwFeatures) (isn : TcpSeq) (now : ℕ)
    (memory : Tcb) where
  unchanged :
      (id : ConnId) (t c : Tcp)
      → c.tcbs ≡ t.tcbs
      → c.listening ≡ t.listening
      → Keyed t
      → Isolated id t c
  unchanged id t c e f keyed = record {
    other_conns = λ other ne. ap (find_tcb other) e;
    other_ports = λ port ne. ap (find_listener port) f;
    keyed = subst KeyedList (sym e) keyed;
  }

  to_tcb-Isolated :
      (id : ConnId) (h : TcpHdr) (p : List ℕ) (t : Tcp) (c : Conn)
      → c.own ≡ id
      → Keyed t
      → Ensures (to_tcb be core hw now id h p t c) (Isolated id t)
  unfolding to_tcb
  to_tcb-Isolated id h p t c own keyed =
      Ensures-bind (λ d. Unit {0}) (Isolated id t) _
        (λ d. some (settle id t (record c { tcb = d }))) (Ensures_any _)
        (λ d u. settle-Isolated id t (record c { tcb = d }) own keyed)

  to_listener-Isolated :
      (id : ConnId) (h : TcpHdr) (p : List ℕ) (t : Tcp)
      → Keyed t
      → Ensures (to_listener be core hw isn now memory id h p t) (Isolated id t)
  unfolding to_listener
  to_listener-Isolated id h p t keyed =
      let kept = unchanged id t t refl refl keyed in
      let more = one_more_pending id t in
      Ensures-if (Isolated id t) h.f_rst _ _ kept (
        Ensures-if (Isolated id t) h.f_ack _ _ (unchanged id t (stray h t) refl refl keyed) (
          Ensures-if (Isolated id t) h.f_syn _ _
            (Ensures-bind (λ d. Unit {0}) (Isolated id t) _
              (λ d. some (settle id more (record { own = id; tcb = d }))) (Ensures_any _)
              (λ d u.
                Isolated-trans id t more _ (pending-Isolated id t keyed)
                  (settle-Isolated id more (record { own = id; tcb = d }) refl keyed)))
            kept))

  without_conn-Isolated :
      (l : Option Listener) (id : ConnId) (h : TcpHdr) (p : List ℕ) (t : Tcp)
      → Keyed t
      → Ensures (without_conn be core hw l isn now memory id h p t) (Isolated id t)
  without_conn-Isolated none id h p t keyed = unchanged id t (stray h t) refl refl keyed
  without_conn-Isolated (some l) id h p t keyed =
      Ensures-if (Isolated id t) (full l) _ _ (unchanged id t (stray h t) refl refl keyed)
        (to_listener-Isolated id h p t keyed)

  dispatch-Isolated :
      (o : Option Conn) (id : ConnId) (h : TcpHdr) (p : List ℕ) (t : Tcp)
      → find_tcb id t.tcbs ≡ o
      → Keyed t
      → Ensures (dispatch be core hw o isn now memory id h p t) (Isolated id t)
  dispatch-Isolated (some c) id h p t found keyed =
      to_tcb-Isolated id h p t c (keyed id c found) keyed
  dispatch-Isolated none id h p t found keyed =
      without_conn-Isolated (find_listener id.local_port t.listening) id h p t keyed

-- When every connection of the table is held under its own addresses and ports, a segment that the code
-- survives leaves each connection whose addresses or ports differ from the segment's in any place, and
-- the listeners of all other ports, as they are, whatever its own connection does with it, also when that
-- connection is removed or opened; and again every connection is held under its own.
pub received-Isolated :
    (be : BigEndian) (core : Align) (hw : HwFeatures) (isn : TcpSeq) (now : ℕ) (memory : Tcb)
    (valid : Bool) (from to : ℕ) (p : List ℕ) (h : TcpHdr) (t : Tcp)
    → read be p ≡ some h
    → Keyed t
    → Ensures
        (received be core hw isn now memory valid from to p t)
        (Isolated (conn_id be core hw from to h) t)
unfolding received
received-Isolated be core hw isn now memory valid from to p h t e keyed =
    let id = conn_id be core hw from to h in
    let P = Isolated id t in
    let kept = unchanged be core hw isn now memory id t t refl refl keyed in
    subst (λ o. Ensures (received_hdr be core hw o isn now memory valid from to p t) P) (sym e)
      (Ensures-if P (ltb (h.data_offset * 4) 20) _ _ kept (
        Ensures-if P valid _ _
          (dispatch-Isolated be core hw isn now memory (find_tcb id t.tcbs) id h p t refl keyed)
          kept))
