-- ===== src/Tcp/Tcb/Segment.antt =====
-- `input_handle_other_state`: a segment that arrives in SYN_RECEIVED or a later state, by the numbered
-- steps of the code.
pub mod Ack
pub mod Input
use actor_network.Prelude.{
  Bool, List, [], drop, false, if◌then◌else◌, length, ltb, min, none, not, true, ℕ, ◌%◌, ◌&&◌, ◌++◌,
  ◌+◌, ◌^◌, ◌||◌, ◌∷◌,
}
use actor_network.Tcp.Header.{TcpHdr}
use actor_network.Tcp.Seq.{TcpSeq, add, diff, seq_eq, seq_lt}
use actor_network.Tcp.Tcb.{
  Tcb, clear_delayed_ack, close_wait, closed, closing, connect_failed, do_closed, do_reset,
  do_time_wait, established, fin_wait_1, fin_wait_2, get_modified_receive_window_size, is_empty,
  is_in, last_ack, listen, output, output_if, refused_error, signal, signal_data_received,
  syn_received, syn_sent, time_wait,
}
use actor_network.Tcp.Tcb.Reader.{merge_out_of_order, should_send_ack}
use actor_network.Tcp.Tcb.Transmit.{count_limited, sendable}

-- How a step ends: the handler returns, or goes on, with `do_output_data`.
pub data Next : Type 0 where
  done : Tcb → Next
  go : Bool → Tcb → Next

-- 4.1: the part of the segment that was received before is cut off.
unfoldable pub trim_dup : TcpSeq → List ℕ → TcpSeq → TcpSeq × List ℕ
trim_dup seg_seq p next =
    let dup = min (diff next seg_seq) (length p) in
    let old = seq_lt seg_seq next in
    (if old then add seg_seq dup else seg_seq, if old then drop dup p else p)

-- 4.2: a RST that is acceptable closes the connection.
unfoldable pub check_rst : Tcb → Next
unfolding do_reset do_closed
check_rst t =
    if is_in t.state (syn_received ∷ [])
    then done (do_reset (signal (connect_failed refused_error) t))
    else if is_in t.state (established ∷ fin_wait_1 ∷ fin_wait_2 ∷ close_wait ∷ [])
    then done (do_reset t)
    else if is_in t.state (closing ∷ last_ack ∷ time_wait ∷ [])
    then done (do_closed t)
    else go false t

-- 4.7: the text of the segment, which continues what was received; the result is `do_output` and the
-- connection.
unfoldable pub accept_text : ℕ → List ℕ → Tcb → Bool × Tcb
unfolding merge_out_of_order get_modified_receive_window_size signal_data_received should_send_ack
accept_text now p t =
    let r = t.rcv in
    let (merged, r') = merge_out_of_order (record r {
      next = add r.next (length p);
      data_size = (r.data_size + length p) % 2 ^ 64;
      received = r.received ++ p ∷ [];
    }) in
    let c =
      signal_data_received
        (record t { rcv = record r' { window = get_modified_receive_window_size r' } }) in
    if is_empty p
    then (false, t)
    else if merged
    then (true, c)
    else should_send_ack now (length p % 2 ^ 16) c

-- 4.8: a FIN that continues what was received.
unfoldable pub accept_fin : Tcb → Tcb
unfolding signal_data_received output do_time_wait
accept_fin t0 =
    let t = output (
      clear_delayed_ack
        (signal_data_received (record t0 { rcv = record t0.rcv { next = add t0.rcv.next 1 } }))) in
    if is_in t.state (syn_received ∷ established ∷ [])
    then record t { state = close_wait }
    else if is_in t.state (fin_wait_1 ∷ [])
    then record t { state = closing }
    else if is_in t.state (fin_wait_2 ∷ [])
    then do_time_wait t
    else t

-- The end of the handler.
unfoldable pub finish_segment : Bool → Bool → Tcb → Tcb
unfolding sendable
finish_segment do_output do_output_data t =
    let asked = not do_output && do_output_data in
    let sends = do_output || (asked && ltb 0 (sendable t.snd)) in
    output_if sends (record t {
      snd = count_limited asked t.snd;
      delayed_ack = if sends then none else t.delayed_ack;
    })

-- 4.8 and the end; from FIN_WAIT_2 the handler returns at once. The segment's text ends at
-- `fin_seq`.
unfoldable pub check_fin : Bool → TcpSeq → Bool → Bool → Tcb → Tcb
unfolding accept_fin finish_segment
check_fin f_fin fin_seq do_output do_output_data t =
    if not f_fin
    then finish_segment do_output do_output_data t
    else if is_in t.state (closed ∷ listen ∷ syn_sent ∷ [])
    then t
    else if seq_eq fin_seq t.rcv.next
    then (let c = accept_fin t in
        if is_in t.state (fin_wait_2 ∷ []) then c else finish_segment false do_output_data c)
    else finish_segment do_output do_output_data t

-- 4.7 and what follows.
unfoldable pub process_text : ℕ → TcpHdr → TcpSeq → List ℕ → Bool → Tcb → Tcb
unfolding accept_text check_fin
process_text now h seg_seq p do_output_data t =
    let (do_output, c) = accept_text now p t in
    let fin_seq = add seg_seq (length p) in
    if is_in t.state (established ∷ fin_wait_1 ∷ fin_wait_2 ∷ [])
    then check_fin h.f_fin fin_seq do_output do_output_data c
    else if is_in t.state (close_wait ∷ closing ∷ last_ack ∷ time_wait ∷ [])
    then t
    else check_fin h.f_fin fin_seq false do_output_data t
