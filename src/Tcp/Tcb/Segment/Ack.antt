-- ===== src/Tcp/Tcb/Segment/Ack.antt =====
-- Step 4.5 of `input_handle_other_state`, the ACK field.
use actor_network.Prelude.{
  Bool, Option, [], false, if◌then◌else◌, leb, ltb, max, min, none, not, some, true, ℕ, ◌%◌, ◌&&◌,
  ◌*◌, ◌+◌, ◌-◌, ◌/◌, ◌==◌, ◌>>=◌, ◌^◌, ◌||◌, ◌∷◌,
}
use actor_network.Tcp.Core.{Align, BigEndian}
use actor_network.Tcp.Header.{TcpHdr}
use actor_network.Tcp.Seq.{TcpSeq, add, diff, seq_eq, seq_gt, seq_le, seq_lt, sub}
use actor_network.Tcp.Tcb.{
  HwFeatures, Send, Tcb, accepted, close_wait, closing, do_closed, do_local_fin_acked, do_time_wait,
  established, exit_fast_recovery, fin_wait_1, fin_wait_2, is_empty, is_in, last_ack, output,
  respond_with_reset, signal, signal_all_data_acked, start_retransmit_timer, syn_received, w32,
}
use actor_network.Tcp.Tcb.Acks.{data_segment_acked}
use actor_network.Tcp.Tcb.Open.{do_established}
use actor_network.Tcp.Tcb.Segment.{Next, done, go}
use actor_network.Tcp.Tcb.Timers.{fast_retransmit}
use actor_network.Tcp.Tcb.Transmit.{flight_size}

-- `update_window`.
unfoldable pub update_window : ℕ → TcpHdr → TcpSeq → Tcb → Tcb
update_window now h seg_seq t =
    let window' = w32 (h.window * 2 ^ t.snd.window_scale) in
    record t {
      snd = record t.snd {
        window = window';
        wl1 = seg_seq;
        wl2 = h.ack;
        zero_window_probing_out = 0;
      };
      persist_time_out = if window' == 0 then t.rto else t.persist_time_out;
      persist_at = if window' == 0 then some (now + t.rto) else none;
    }

-- `set_retransmit_timer`.
unfoldable pub set_retransmit_timer : ℕ → Tcb → Tcb
unfolding signal_all_data_acked
set_retransmit_timer now t =
    let acked = is_empty t.snd.unacked in
    signal_all_data_acked acked
      (record t { retransmit_at = if acked then none else some (now + t.rto) })

-- The window update of an ACK that moves SND.UNA.
abbrev pub updates_window : TcpHdr → TcpSeq → Send → Bool
updates_window h seg_seq s = seq_lt s.wl1 seg_seq || (seq_eq s.wl1 seg_seq && seq_le s.wl2 h.ack)

-- The conditions on a duplicate ACK.
abbrev pub is_duplicate : TcpHdr → ℕ → Send → Bool
is_duplicate h seg_len s =
    let d = diff s.next s.unacknowledged in
    (ltb s.zero_window_probing_out d && ltb d (2 ^ 31))
    && (not (is_empty s.unacked)
        && (seg_len == 0
            && (not h.f_fin
                && (not h.f_syn
                    && (seq_eq h.ack s.unacknowledged
                        && w32 (h.window * 2 ^ s.window_scale) == s.window)))))

module _ (be : BigEndian) (core : Align) (hw : HwFeatures) (now : ℕ) where
  -- An ACK of new data in fast recovery that does not reach `recover`.
  unfoldable pub partial_recovery : ℕ → Tcb → Option Tcb
  unfolding fast_retransmit
  partial_recovery acked t0 = do
    t ← fast_retransmit be core hw t0
    let s = t.snd
    let deflated = w32 (s.cwnd + 2 ^ 32 - acked)
    let cwnd' = if leb s.mss acked then w32 (deflated + s.mss) else deflated
    let acks = w32 (s.partial_ack + 1)
    let c = record t { snd = record s { cwnd = cwnd'; partial_ack = acks } }
    some (if acks == 1 then start_retransmit_timer now c else c)

  -- SND.UNA < SEG.ACK =< SND.NXT, after the data is acknowledged.
  unfoldable pub after_ack : TcpHdr → ℕ → Tcb → Option Tcb
  unfolding partial_recovery set_retransmit_timer flight_size
  after_ack h acked t =
      let s = t.snd in
      let full = min s.ssthresh (w32 (max (flight_size s.unacked) s.mss + s.mss)) in
      if ltb s.dupacks 3
      then some (set_retransmit_timer now (record t { snd = exit_fast_recovery s }))
      else if seq_gt h.ack s.recover
      then some (
          set_retransmit_timer now
            (record t { snd = exit_fast_recovery (record s { cwnd = full }) }))
      else partial_recovery acked t

  unfoldable pub new_ack : TcpHdr → TcpSeq → Tcb → Option Next
  unfolding data_segment_acked update_window after_ack
  new_ack h seg_seq t0 = do
    (t, acked) ← data_segment_acked now h.ack t0
    c ←
        after_ack h acked
          (if updates_window h seg_seq t.snd then update_window now h seg_seq t else t)
    some (go true c)

  -- The third duplicate, when it starts fast retransmit.
  unfoldable pub enter_recovery : TcpHdr → Tcb → Option Tcb
  unfolding fast_retransmit flight_size
  enter_recovery h t =
      let s = t.snd in
      if seq_gt (sub h.ack 1) s.recover
      then fast_retransmit be core hw (record t {
        snd = record s {
          recover = sub s.next 1;
          ssthresh =
              max (w32 (flight_size s.unacked + 2 ^ 32 - s.limited_transfer) / 2) (2 * s.mss);
        };
      })
      else some t

  abbrev pub counted_dupacks : Send → ℕ
  counted_dupacks s = (s.dupacks + 1) % 2 ^ 16

  unfoldable pub duplicate_ack : TcpHdr → Tcb → Option Next
  unfolding enter_recovery
  duplicate_ack h t =
      let n = counted_dupacks t.snd in
      let c = record t { snd = record t.snd { dupacks = n } } in
      if n == 1 || n == 2
      then some (go true c)
      else if n == 3
      then (do
        again ← enter_recovery h c
        let s = again.snd
        some (go false (record again { snd = record s { cwnd = w32 (s.ssthresh + 3 * s.mss) } })))
      else if ltb 3 n
      then some (go true (record c { snd = record c.snd { cwnd = w32 (c.snd.cwnd + c.snd.mss) } }))
      else some (go false c)

  -- ESTABLISHED and CLOSE_WAIT.
  unfoldable pub ack_data : TcpHdr → TcpSeq → ℕ → Tcb → Option Next
  unfolding new_ack duplicate_ack update_window output
  ack_data h seg_seq seg_len t =
      let s = t.snd in
      if seq_lt s.unacknowledged h.ack && seq_le h.ack s.next
      then new_ack h seg_seq t
      else if is_duplicate h seg_len s
      then duplicate_ack h t
      else if seq_gt h.ack s.next
      then some (done (output t))
      else if s.window == 0 && ltb 0 h.window
      then some (go true (update_window now h seg_seq t))
      else some (go false t)

-- FIN_WAIT_1, CLOSING and LAST_ACK: our FIN is acknowledged.
unfoldable pub ack_fin : TcpHdr → Bool → Tcb → Next
unfolding do_time_wait do_closed
ack_fin h data_out t =
    let acked = seq_eq h.ack (add t.snd.next 1) in
    let c = record t { snd = do_local_fin_acked t.snd } in
    if is_in t.state (fin_wait_1 ∷ [])
    then go data_out (if acked then record c { state = fin_wait_2 } else t)
    else if is_in t.state (closing ∷ [])
    then done (if acked then do_time_wait c else t)
    else if is_in t.state (last_ack ∷ [])
    then (if acked then done (do_closed c) else go data_out t)
    else go data_out t

abbrev pub then_ack_fin : TcpHdr → Next → Next
then_ack_fin h (done t) = done t
then_ack_fin h (go data_out t) = ack_fin h data_out t

module _ (be : BigEndian) (core : Align) (hw : HwFeatures) (now : ℕ) where
  abbrev pub ack_states : TcpHdr → TcpSeq → ℕ → Tcb → Option Next
  ack_states h seg_seq seg_len t = do
    n ←
        if is_in t.state (established ∷ close_wait ∷ [])
        then ack_data be core hw now h seg_seq seg_len t
        else some (go false t)
    some (then_ack_fin h n)

  -- 4.5.
  unfoldable pub check_ack : TcpHdr → TcpSeq → ℕ → Tcb → Option Next
  unfolding do_established respond_with_reset ack_data ack_fin
  check_ack h seg_seq seg_len t =
      let s = t.snd in
      if not h.f_ack
      then some (done t)
      else if is_in t.state (syn_received ∷ [])
      then (if seq_le s.unacknowledged h.ack && seq_le h.ack s.next
          then ack_states h seg_seq seg_len (signal accepted (do_established now t))
          else some (done (respond_with_reset h t)))
      else ack_states h seg_seq seg_len t
