-- ===== src/Tcp/Table/Opened.antt =====
-- When a connection is opened, and when a segment is answered without one.
use actor_network.Prelude.{
  Bool, Bool-cases, Ensures, Ensures-bind, Ensures-if, Ensures-if_cases, Ensures_any, List, Option,
  arith, false, inl, inr, ltb, none, refl, some, subst, sym, true, ℕ, ◌*◌, ◌+◌, ◌<◌, ◌∷◌, ◌≡◌, ◌⊎◌,
}
use actor_network.Tcp.Core.{Align, BigEndian}
use actor_network.Tcp.Header.{TcpHdr, read}
use actor_network.Tcp.Seq.{TcpSeq}
use actor_network.Tcp.Table.{
  ConnId, Listener, Tcp, conn_id, dispatch, find_listener, find_tcb, full, one_more_pending,
  received, received_hdr, settle, stray, to_listener, without_conn,
}
use actor_network.Tcp.Tcb.{HwFeatures, Tcb, reset_hdr}

-- A SYN on its own, to a listener that has room.
pub record IsOpening (id : ConnId) (h : TcpHdr) (t : Tcp) : Type 0 where
  pub syn : h.f_syn ≡ true
  pub no_ack : h.f_ack ≡ false
  pub no_rst : h.f_rst ≡ false
  pub listener : Listener
  pub found : find_listener id.local_port t.listening ≡ some listener
  pub room : listener.pending + listener.queued < listener.max_size

-- No connection is made, and the answer is at most a RST, never to a RST.
pub record IsStray (h : TcpHdr) (t c : Tcp) : Type 0 where
  pub same_tcbs : c.tcbs ≡ t.tcbs
  pub same_listening : c.listening ≡ t.listening
  pub answered : (c.without_tcb ≡ t.without_tcb) ⊎ (c.without_tcb ≡ reset_hdr h ∷ t.without_tcb)
  pub no_answer : h.f_rst ≡ true → c.without_tcb ≡ t.without_tcb

same-IsStray : (h : TcpHdr) (t : Tcp) → IsStray h t t
same-IsStray h t = record {
  same_tcbs = refl;
  same_listening = refl;
  answered = inl refl;
  no_answer = λ e. refl;
}

stray-IsStray : (h : TcpHdr) (t : Tcp) → IsStray h t (stray h t)
stray-IsStray h t = elim (Bool-cases h.f_rst) [
  | inl e ↦ rw e (record {
    same_tcbs = refl;
    same_listening = refl;
    answered = inl refl;
    no_answer = λ f. refl;
  })
  | inr e ↦ record {
    same_tcbs = refl;
    same_listening = refl;
    answered = rw e (inr refl);
    no_answer = λ f. cc;
  }
]

module _ (be : BigEndian) (core : Align) (hw : HwFeatures) (isn : TcpSeq) (now : ℕ)
    (memory : Tcb) where
  abbrev Outcome : ConnId → TcpHdr → Tcp → Tcp → Type 0
  Outcome id h t c = IsStray h t c ⊎ IsOpening id h t

  to_listener-Outcome :
      (id : ConnId) (h : TcpHdr) (p : List ℕ) (t : Tcp) (l : Listener)
      → find_listener id.local_port t.listening ≡ some l
      → full l ≡ false
      → Ensures (to_listener be core hw isn now memory id h p t) (Outcome id h t)
  unfolding to_listener
  to_listener-Outcome id h p t l found room =
      let P = Outcome id h t in
      Ensures-if_cases P h.f_rst _ _ (λ r. inl (same-IsStray h t))
        (λ r.
          Ensures-if_cases P h.f_ack _ _ (λ a. inl (stray-IsStray h t))
            (λ a.
              Ensures-if_cases P h.f_syn _ _
                (λ s.
                  Ensures-bind (λ d. Unit {0}) P _
                    (λ d. some (settle id (one_more_pending id t) (record { own = id; tcb = d })))
                    (Ensures_any _)
                    (λ d u. inr (record {
                      syn = s;
                      no_ack = a;
                      no_rst = r;
                      listener = l;
                      found = found;
                      room = ground (arith, room);
                    })))
                (λ s. inl (same-IsStray h t))))

  without_conn-Outcome :
      (id : ConnId) (h : TcpHdr) (p : List ℕ) (t : Tcp) (o : Option Listener)
      → find_listener id.local_port t.listening ≡ o
      → Ensures (without_conn be core hw o isn now memory id h p t) (Outcome id h t)
  without_conn-Outcome id h p t none found = inl (stray-IsStray h t)
  without_conn-Outcome id h p t (some l) found = elim (Bool-cases (full l)) [
    | inl e ↦ rw e (inl (stray-IsStray h t))
    | inr e ↦ rw e (to_listener-Outcome id h p t l found e)
  ]

-- A segment that belongs to no connection, if the code survives it, opens one only when it is a SYN without ACK and RST and its
-- port has a listener with room. Otherwise nothing changes but that a RST may be sent, and a RST is
-- never answered.
pub received-IsOpening :
    (be : BigEndian) (core : Align) (hw : HwFeatures) (isn : TcpSeq) (now : ℕ) (memory : Tcb)
    (valid : Bool) (from to : ℕ) (p : List ℕ) (h : TcpHdr) (t : Tcp)
    → read be p ≡ some h
    → find_tcb (conn_id be core hw from to h) t.tcbs ≡ none
    → Ensures
        (received be core hw isn now memory valid from to p t)
        (λ c. IsStray h t c ⊎ IsOpening (conn_id be core hw from to h) h t)
unfolding received
received-IsOpening be core hw isn now memory valid from to p h t e missing =
    let id = conn_id be core hw from to h in
    let P : Tcp → Type 0 = λ c. IsStray h t c ⊎ IsOpening id h t in
    subst (λ o. Ensures (received_hdr be core hw o isn now memory valid from to p t) P) (sym e)
      (Ensures-if P (ltb (h.data_offset * 4) 20) _ _ (inl (same-IsStray h t)) (
        Ensures-if P valid _ _
          (subst (λ o. Ensures (dispatch be core hw o isn now memory id h p t) P) (sym missing)
            (without_conn-Outcome be core hw isn now memory id h p t _ refl))
          (inl (same-IsStray h t))))
