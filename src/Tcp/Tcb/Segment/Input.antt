-- ===== src/Tcp/Tcb/Segment/Input.antt =====
-- The steps of `input_handle_other_state` in order.
use actor_network.Prelude.{
  List, Option, drop, false, guard, if◌then◌else◌, leb, length, some, ℕ, ◌*◌, ◌>>=◌, ◌>>◌,
}
use actor_network.Tcp.Core.{Align, BigEndian}
use actor_network.Tcp.Header.{TcpHdr}
use actor_network.Tcp.Seq.{TcpSeq, seq_eq}
use actor_network.Tcp.Tcb.{HwFeatures, Tcb, do_reset, output, respond_with_reset}
use actor_network.Tcp.Tcb.Reader.{segment_acceptable}
use actor_network.Tcp.Tcb.Reader.OutOfOrder.{insert_out_of_order}
use actor_network.Tcp.Tcb.Segment.{Next, check_rst, done, go, process_text, trim_dup}
use actor_network.Tcp.Tcb.Segment.Ack.{check_ack}

module _ (be : BigEndian) (core : Align) (hw : HwFeatures) (now : ℕ) where
  abbrev pub text_after : TcpHdr → TcpSeq → List ℕ → Next → Tcb
  text_after h seg_seq p (done t) = t
  text_after h seg_seq p (go data_out t) = process_text now h seg_seq p data_out t

  -- From 4.4 on.
  abbrev pub syn_and_ack : TcpHdr → TcpSeq → List ℕ → Next → Option Tcb
  syn_and_ack h seg_seq p (done t) = some t
  syn_and_ack h seg_seq p (go data_out t) =
      if h.f_syn
      then some (do_reset (respond_with_reset h t))
      else (do n ← check_ack be core hw now h seg_seq (length p) t; some (text_after h seg_seq p n))

  -- The segment begins at `seg_seq`, after its duplicate part.
  unfoldable pub in_window : TcpHdr → TcpSeq → List ℕ → Tcb → Option Tcb
  unfolding check_rst do_reset respond_with_reset check_ack process_text insert_out_of_order output
  in_window h seg_seq p t =
      if seq_eq seg_seq t.rcv.next
      then syn_and_ack h seg_seq p (if h.f_rst then check_rst t else go false t)
      else (do
        m ← insert_out_of_order seg_seq p t.rcv.out_of_order
        some (output (record t { rcv = record t.rcv { out_of_order = m } })))

  -- `input_handle_other_state`, on the whole segment; `trim_front` asserts that it has its header.
  unfoldable pub input_handle_other_state : TcpHdr → List ℕ → Tcb → Option Tcb
  unfolding segment_acceptable trim_dup in_window output
  input_handle_other_state h bytes t = do
    guard (leb (h.data_offset * 4) (length bytes))
    let p = drop (h.data_offset * 4) bytes
    let (seg_seq, rest) = trim_dup h.seq p t.rcv.next
    if segment_acceptable h.seq (length p) t.rcv
        then in_window h seg_seq rest t
        else some (output t)
