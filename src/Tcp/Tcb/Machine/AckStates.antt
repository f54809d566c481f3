-- ===== src/Tcp/Tcb/Machine/AckStates.antt =====
-- The ACK field of a segment in ESTABLISHED and CLOSE_WAIT keeps the state.
use actor_network.Prelude.{
  Bool, Ensures, Ensures-bind, Ensures-if, arith, if◌then◌else◌, ltb, refl, ℕ, ◌&&◌, ◌==◌, ◌||◌,
  ◌∙◌, ◌≡◌,
}
use actor_network.Tcp.Core.{Align, BigEndian}
use actor_network.Tcp.Header.{TcpHdr}
use actor_network.Tcp.Seq.{TcpSeq, seq_gt, seq_le, seq_lt, sub}
use actor_network.Tcp.Tcb.{HwFeatures, Tcb, output, signal_all_data_acked}
use actor_network.Tcp.Tcb.Acks.{data_segment_acked}
use actor_network.Tcp.Tcb.Machine.{SameState, data_segment_acked-state, fast_retransmit-state}
use actor_network.Tcp.Tcb.Machine.Diagram.{NextSame}
use actor_network.Tcp.Tcb.Segment.Ack.{
  ack_data, after_ack, counted_dupacks, duplicate_ack, enter_recovery, is_duplicate, new_ack,
  partial_recovery, set_retransmit_timer, update_window, updates_window,
}
use actor_network.Tcp.Tcb.Timers.{fast_retransmit}

module _ (be : BigEndian) (core : Align) (hw : HwFeatures) (now : ℕ) where
  pub partial_recovery-state :
      (acked : ℕ) (t : Tcb) → Ensures (partial_recovery be core hw now acked t) (SameState t)
  unfolding partial_recovery
  partial_recovery-state acked t =
      Ensures-bind (SameState t) (SameState t) (fast_retransmit be core hw t) _
        (fast_retransmit-state be core hw t) (λ c e. ground arith)

  pub after_ack-state :
      (h : TcpHdr) (acked : ℕ) (t : Tcb)
      → Ensures (after_ack be core hw now h acked t) (SameState t)
  unfolding after_ack set_retransmit_timer signal_all_data_acked
  after_ack-state h acked t = Ensures-if (SameState t) (ltb t.snd.dupacks 3) _ _ refl (
      Ensures-if (SameState t) (seq_gt h.ack t.snd.recover) _ _ refl
        (partial_recovery-state acked t))

  pub update_window_if-state :
      (b : Bool) (h : TcpHdr) (seg_seq : TcpSeq) (t : Tcb)
      → (if b then update_window now h seg_seq t else t).state ≡ t.state
  unfolding update_window
  update_window_if-state b h seg_seq t = ground arith

  pub new_ack-state :
      (h : TcpHdr) (seg_seq : TcpSeq) (t : Tcb)
      → Ensures (new_ack be core hw now h seg_seq t) (NextSame t)
  unfolding new_ack
  new_ack-state h seg_seq t =
      Ensures-bind (λ r. SameState t r.0) (NextSame t) (data_segment_acked now h.ack t) _
        (data_segment_acked-state now h.ack t)
        (λ r e.
          let c =
            if updates_window h seg_seq r.0.snd then update_window now h seg_seq r.0 else r.0 in
          Ensures-bind (SameState c) (NextSame t) (after_ack be core hw now h r.1 c) _
            (after_ack-state h r.1 c)
            (λ d e'.
              e' ∙ update_window_if-state (updates_window h seg_seq r.0.snd) h seg_seq r.0 ∙ e))

  pub enter_recovery-state :
      (h : TcpHdr) (t : Tcb) → Ensures (enter_recovery be core hw now h t) (SameState t)
  unfolding enter_recovery
  enter_recovery-state h t =
      Ensures-if (SameState t) (seq_gt (sub h.ack 1) t.snd.recover) _ _
        (fast_retransmit-state be core hw _) refl

  pub duplicate_ack-state :
      (h : TcpHdr) (t : Tcb) → Ensures (duplicate_ack be core hw now h t) (NextSame t)
  unfolding duplicate_ack
  duplicate_ack-state h t =
      let n = counted_dupacks be core hw now t.snd in
      let c = record t { snd = record t.snd { dupacks = n } } in
      Ensures-if (NextSame t) (n == 1 || n == 2) _ _ refl (
        Ensures-if (NextSame t) (n == 3) _ _
          (Ensures-bind (SameState t) (NextSame t) (enter_recovery be core hw now h c) _
            (enter_recovery-state h c) (λ a e. e))
          (Ensures-if (NextSame t) (ltb 3 n) _ _ refl refl))

  pub ack_data-state :
      (h : TcpHdr) (seg_seq : TcpSeq) (seg_len : ℕ) (t : Tcb)
      → Ensures (ack_data be core hw now h seg_seq seg_len t) (NextSame t)
  unfolding ack_data update_window output
  ack_data-state h seg_seq seg_len t =
      let s = t.snd in
      Ensures-if (NextSame t) (seq_lt s.unacknowledged h.ack && seq_le h.ack s.next) _ _
        (new_ack-state h seg_seq t)
        (Ensures-if (NextSame t) (is_duplicate h seg_len s) _ _ (duplicate_ack-state h t) (
          Ensures-if (NextSame t) (seq_gt h.ack s.next) _ _ refl
            (Ensures-if (NextSame t) (s.window == 0 && ltb 0 h.window) _ _ refl refl)))
