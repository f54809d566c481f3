-- ===== src/Tcp/Tcb/Machine.antt =====
-- What holds after the functions that send, whatever is queued, and which of them keep the state.
pub mod GivesUp
pub mod Diagram
pub mod AckStates
pub mod Edges
pub mod Events
pub mod Reach
use actor_network.Prelude.{
  Bool, Ensures, Ensures-bind, Ensures-if, Ensures_any, Ensures_map, List, Option, [], false, guard,
  length, none, refl, some, true, ℕ, ◌+◌, ◌∙◌, ◌∷◌, ◌≡◌,
}
use actor_network.Tcp.Core.{Align, BigEndian}
use actor_network.Tcp.Header.{TcpHdr}
use actor_network.Tcp.Seq.{TcpSeq, add, diff, seq_le, seq_lt}
use actor_network.Tcp.Tcb.{HwFeatures, Sent, Tcb, Unacked, closed, is_in, output, w32}
use actor_network.Tcp.Tcb.Acks.{
  ack_full, ack_partial, ack_segment, acked_front, covers_trim, data_segment_acked, leave_queue,
  trim_first,
}
use actor_network.Tcp.Tcb.Rate.{update_cwnd}
use actor_network.Tcp.Tcb.Timers.{count_transmit, fast_front, fast_retransmit}
use actor_network.Tcp.Tcb.Transmit.{
  ack_sent, output_one, prepared, push_segment, resend, retransmit_one,
}

abbrev pub SameState : Tcb → Tcb → Type 0
SameState t t' = t'.state ≡ t.state

module _ (P : Tcb → Type 0) (be : BigEndian) (core : Align) (hw : HwFeatures) where
  push_rule :
      (o : Option (List ℕ)) (b : Bool) (h : TcpHdr) (p : List ℕ) (t : Tcb)
      → ((q : List Sent) → P (record t { packetq = q }))
      → Ensures (push_segment be core hw o b h p t) P
  push_rule none b h p t all = tt
  push_rule (some opts) false h p t all = tt
  push_rule (some opts) true h p t all = all _

  pub output_one_rule :
      (now : ℕ) (t : Tcb)
      → P t
      → ((q : List Sent) → P (record (prepared be core hw now t) { packetq = q }))
      → Ensures (output_one be core hw now t) P
  unfolding output_one
  output_one_rule now t h all =
      Ensures-if P (is_in t.state (closed ∷ [])) (some t) _ h
        (push_rule _ _ _ _ (prepared be core hw now t) all)

  resend_rule :
      (us : List Unacked) (t : Tcb)
      → ((q : List Sent) → P (record (ack_sent be core hw t) { packetq = q }))
      → Ensures (resend be core hw us t) P
  resend_rule [] t all = tt
  resend_rule (seg ∷ rest) t all = push_rule _ _ _ _ (ack_sent be core hw t) all

  pub retransmit_one_rule :
      (t : Tcb)
      → P t
      → ((q : List Sent) → P (record (ack_sent be core hw t) { packetq = q }))
      → Ensures (retransmit_one be core hw t) P
  unfolding retransmit_one
  retransmit_one_rule t h all =
      Ensures-if P (is_in t.state (closed ∷ [])) (some t) _ h (resend_rule t.snd.unacked t all)

module _ (be : BigEndian) (core : Align) (hw : HwFeatures) where
  fast_front-state :
      (us : List Unacked) (t : Tcb) → Ensures (fast_front be core hw us t) (SameState t)
  unfolding output
  fast_front-state [] t = refl
  fast_front-state (seg ∷ rest) t =
      let c = record t { snd = record t.snd { unacked = count_transmit be core hw seg ∷ rest } } in
      Ensures-bind (SameState t) (SameState t) (retransmit_one be core hw c) _
        (retransmit_one_rule (SameState t) be core hw c refl (λ q. refl)) (λ a e. e)

  pub fast_retransmit-state : (t : Tcb) → Ensures (fast_retransmit be core hw t) (SameState t)
  unfolding fast_retransmit
  fast_retransmit-state t = fast_front-state t.snd.unacked t

ack_segment-state :
    (now : ℕ) (seg : Unacked) (rest : List Unacked) (t : Tcb)
    → Ensures (ack_segment now seg rest t) (SameState t)
unfolding ack_segment
ack_segment-state now seg rest t =
    let c = acked_front now seg t in
    Ensures-bind (λ s. Unit {0}) (SameState t) (update_cwnd (length seg.bytes) c.snd)
      (λ s. some (leave_queue seg rest c s)) (Ensures_any (update_cwnd (length seg.bytes) c.snd))
      (λ s u. refl)

ack_full-state :
    (now : ℕ) (seg_ack : TcpSeq) (us : List Unacked) (t : Tcb) (total : ℕ)
    → Ensures (ack_full now seg_ack us t total) (λ r. SameState t r.0)
unfolding ack_full
ack_full-state now seg_ack [] t total = refl
ack_full-state now seg_ack (seg ∷ rest) t total =
    Ensures-if (λ r. SameState t r.0) (seq_le (add t.snd.unacknowledged (length seg.bytes)) seg_ack)
      _ _
      (Ensures-bind (SameState t) (λ r. SameState t r.0) (ack_segment now seg rest t)
        (λ t'. ack_full now seg_ack rest t' (w32 (total + length seg.bytes)))
        (ack_segment-state now seg rest t)
        (λ t' e.
          Ensures_map (λ r. SameState t' r.0) (λ r. SameState t r.0)
            (ack_full now seg_ack rest t' (w32 (total + length seg.bytes)))
            (ack_full-state now seg_ack rest t' (w32 (total + length seg.bytes))) (λ r e'. e' ∙ e)))
      refl

pub data_segment_acked-state :
    (now : ℕ) (seg_ack : TcpSeq) (t : Tcb)
    → Ensures (data_segment_acked now seg_ack t) (λ r. SameState t r.0)
unfolding data_segment_acked ack_partial
data_segment_acked-state now seg_ack t =
    Ensures-bind (λ r. SameState t r.0) (λ r. SameState t r.0)
      (ack_full now seg_ack t.snd.unacked t 0) (ack_partial seg_ack)
      (ack_full-state now seg_ack t.snd.unacked t 0) (λ r e. partial r.0 r.1 e)
  where
    partial :
        (c : Tcb) (total : ℕ)
        → SameState t c
        → Ensures (ack_partial seg_ack (c, total)) (λ r. SameState t r.0)
    partial c total e =
        Ensures-if (λ r. SameState t r.0) (seq_lt c.snd.unacknowledged seg_ack) _ _
          (Ensures-bind (λ g. Unit {0}) (λ r. SameState t r.0)
            (guard (covers_trim (diff seg_ack c.snd.unacknowledged) c.snd.unacked)) _
            (Ensures_any _)
            (λ g u.
              Ensures-bind (λ s. Unit {0}) (λ r. SameState t r.0)
                (update_cwnd (diff seg_ack c.snd.unacknowledged) (record c.snd {
                  unacked = trim_first (diff seg_ack c.snd.unacknowledged) c.snd.unacked;
                  unacknowledged = seg_ack;
                }))
                (λ s. some (record c { snd = s }, w32 (total + diff seg_ack c.snd.unacknowledged)))
                (Ensures_any _) (λ s u'. e)))
          e
