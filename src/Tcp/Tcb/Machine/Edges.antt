-- ===== src/Tcp/Tcb/Machine/Edges.antt =====
-- The handler of segments along the state diagram.
use actor_network.Prelude.{
  Bool-cases, Ensures, Ensures-bind, Ensures-if, Ensures_any, Ensures_map, List, [], arith, drop,
  false, guard, if◌then◌else◌, inl, inr, leb, length, not, refl, some, subst, true, ℕ, ◌&&◌, ◌*◌,
  ◌∷◌, ◌≡◌,
}
use actor_network.Tcp.Core.{Align, BigEndian}
use actor_network.Tcp.Header.{TcpHdr}
use actor_network.Tcp.Seq.{TcpSeq, seq_eq, seq_le}
use actor_network.Tcp.Tcb.{
  HwFeatures, Tcb, TcpState, accepted, cleanup, close_wait, do_closed, do_reset, established, is_in,
  output, respond_with_reset, signal, syn_received,
}
use actor_network.Tcp.Tcb.Machine.AckStates.{ack_data-state}
use actor_network.Tcp.Tcb.Machine.Diagram.{
  FollowsAck, FollowsSegment, FollowsSegment-ack_fin, FollowsSegment-refl, NextSame, NextState,
  Passes, ack_fin-Follows, process_text-Follows,
}
use actor_network.Tcp.Tcb.Open.{do_established}
use actor_network.Tcp.Tcb.Reader.{segment_acceptable}
use actor_network.Tcp.Tcb.Reader.OutOfOrder.{insert_out_of_order}
use actor_network.Tcp.Tcb.Segment.{Next, check_rst, done, go, trim_dup}
use actor_network.Tcp.Tcb.Segment.Ack.{ack_data, ack_fin, ack_states, check_ack, then_ack_fin}
use actor_network.Tcp.Tcb.Segment.Input.{
  in_window, input_handle_other_state, syn_and_ack, text_after,
}

module _ (be : BigEndian) (core : Align) (hw : HwFeatures) (now : ℕ) where
  then_ack_fin-Follows :
      (h : TcpHdr) (s : TcpState) (n : Next)
      → NextState (λ s'. s' ≡ s) n
      → NextState (FollowsAck s) (then_ack_fin h n)
  then_ack_fin-Follows h s (done t) e = ground arith
  then_ack_fin-Follows h s (go d t) e =
      subst (λ x. NextState (FollowsAck x) (ack_fin h d t)) e (ack_fin-Follows h d t)

  ack_states-Follows :
      (h : TcpHdr) (seg_seq : TcpSeq) (seg_len : ℕ) (t : Tcb)
      → Ensures (ack_states be core hw now h seg_seq seg_len t) (NextState (FollowsAck t.state))
  ack_states-Follows h seg_seq seg_len t =
      let P = NextState (FollowsAck t.state) in
      Ensures-bind (NextSame t) P
        (if is_in t.state (established ∷ close_wait ∷ [])
          then ack_data be core hw now h seg_seq seg_len t
          else some (go false t))
        (λ n. some (then_ack_fin h n))
        (Ensures-if (NextSame t) (is_in t.state (established ∷ close_wait ∷ [])) _ _
          (ack_data-state be core hw now h seg_seq seg_len t) refl)
        (λ n e. then_ack_fin-Follows h t.state n e)

  established-FollowsAck :
      (s : TcpState) (n : Next)
      → is_in s (syn_received ∷ []) ≡ true
      → NextState (FollowsAck established) n
      → NextState (FollowsAck s) n
  established-FollowsAck s (done t) e h = ground arith
  established-FollowsAck s (go d t) e h = ground arith

  check_ack-Follows :
      (h : TcpHdr) (seg_seq : TcpSeq) (seg_len : ℕ) (t : Tcb)
      → Ensures (check_ack be core hw now h seg_seq seg_len t) (NextState (FollowsAck t.state))
  unfolding check_ack respond_with_reset do_established
  check_ack-Follows h seg_seq seg_len t =
      let P = NextState (FollowsAck t.state) in
      let same : FollowsAck t.state t.state = ground arith in
      let opened = signal accepted (do_established now t) in
      Ensures-if P (not h.f_ack) _ _ same (elim (Bool-cases (is_in t.state (syn_received ∷ []))) [
        | inl e ↦ rw e (
            Ensures-if P (seq_le t.snd.unacknowledged h.ack && seq_le h.ack t.snd.next) _ _
              (Ensures_map (NextState (FollowsAck established)) P
                (ack_states be core hw now h seg_seq seg_len opened)
                (ack_states-Follows h seg_seq seg_len opened)
                (λ n k. established-FollowsAck t.state n e k))
              same)
        | inr e ↦ rw e (ack_states-Follows h seg_seq seg_len t)
      ])

  text_after-Follows :
      (h : TcpHdr) (seg_seq : TcpSeq) (p : List ℕ) (s : TcpState) (n : Next)
      → Passes h s
      → NextState (FollowsAck s) n
      → FollowsSegment h s (text_after be core hw now h seg_seq p n).state
  text_after-Follows h seg_seq p s (done t) r k =
      FollowsSegment-ack_fin h s t.state t.state r k (ground arith)
  text_after-Follows h seg_seq p s (go d t) r k =
      FollowsSegment-ack_fin h s t.state _ r k (process_text-Follows now h seg_seq p d t)

  -- A step that returns has followed an edge, and one that goes on has kept the state.
  abbrev Steps : TcpHdr → TcpState → Next → Type 0
  Steps h s (done t) = FollowsSegment h s t.state
  Steps h s (go d t) = (t.state ≡ s) × Passes h s

  check_rst-Steps :
      (h : TcpHdr) (t : Tcb) → Steps h t.state (if h.f_rst then check_rst t else go false t)
  unfolding check_rst do_reset cleanup do_closed
  check_rst-Steps h t = ground arith

  syn_and_ack-Follows :
      (h : TcpHdr) (seg_seq : TcpSeq) (p : List ℕ) (s : TcpState) (n : Next)
      → Steps h s n
      → Ensures (syn_and_ack be core hw now h seg_seq p n) (λ c. FollowsSegment h s c.state)
  unfolding do_reset cleanup respond_with_reset
  syn_and_ack-Follows h seg_seq p s (done t) k = k
  syn_and_ack-Follows h seg_seq p s (go d t) k =
      Ensures-if (λ c. FollowsSegment h s c.state) h.f_syn _ _ (ground arith)
        (Ensures-bind (NextState (FollowsAck s)) (λ c. FollowsSegment h s c.state)
          (check_ack be core hw now h seg_seq (length p) t)
          (λ n. some (text_after be core hw now h seg_seq p n))
          (subst
            (λ x.
              Ensures (check_ack be core hw now h seg_seq (length p) t) (NextState (FollowsAck x)))
            k.0 (check_ack-Follows h seg_seq (length p) t))
          (λ n e. text_after-Follows h seg_seq p s n k.1 e))

  in_window-Follows :
      (h : TcpHdr) (seg_seq : TcpSeq) (p : List ℕ) (t : Tcb)
      → Ensures (in_window be core hw now h seg_seq p t) (λ c. FollowsSegment h t.state c.state)
  unfolding in_window output
  in_window-Follows h seg_seq p t =
      let P : Tcb → Type 0 = λ c. FollowsSegment h t.state c.state in
      Ensures-if P (seq_eq seg_seq t.rcv.next) _ _
        (syn_and_ack-Follows h seg_seq p t.state _ (check_rst-Steps h t))
        (Ensures-bind (λ m. Unit {0}) P (insert_out_of_order seg_seq p t.rcv.out_of_order) _
          (Ensures_any (insert_out_of_order seg_seq p t.rcv.out_of_order))
          (λ m u. FollowsSegment-refl h t.state t.state refl))

  pub input_handle_other_state-Follows :
      (h : TcpHdr) (bytes : List ℕ) (t : Tcb)
      → Ensures
          (input_handle_other_state be core hw now h bytes t)
          (λ c. FollowsSegment h t.state c.state)
  unfolding input_handle_other_state output
  input_handle_other_state-Follows h bytes t =
      let P : Tcb → Type 0 = λ c. FollowsSegment h t.state c.state in
      let p = drop (h.data_offset * 4) bytes in
      let r = trim_dup h.seq p t.rcv.next in
      Ensures-bind (λ g. Unit {0}) P (guard (leb (h.data_offset * 4) (length bytes))) _
        (Ensures_any _)
        (λ g u.
          Ensures-if P (segment_acceptable h.seq (length p) t.rcv) _ _
            (in_window-Follows h r.0 r.1 t) (FollowsSegment-refl h t.state t.state refl))
