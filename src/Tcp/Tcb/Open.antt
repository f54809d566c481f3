-- ===== src/Tcp/Tcb/Open.antt =====
-- Opening: `connect`, `init_from_options`, and the segments that arrive in LISTEN and SYN_SENT.
pub mod Window
use actor_network.Prelude.{
  List, Option, drop, guard, if◌then◌else◌, leb, length, ltb, none, some, take, ℕ, ◌&&◌, ◌*◌, ◌-◌,
  ◌>>=◌, ◌>>◌, ◌^◌, ◌||◌,
}
use actor_network.Tcp.Core.{BigEndian}
use actor_network.Tcp.Header.{TcpHdr}
use actor_network.Tcp.Option.{Parsed, TcpOption, overread, parse, parsed, unfinished}
use actor_network.Tcp.Seq.{TcpSeq, add, seq_gt, seq_le}
use actor_network.Tcp.Tcb.{
  HwFeatures, Tcb, connected, do_reset, do_setup_isn, do_syn_received, do_syn_sent, established,
  get_default_receive_window_size, local_mss, output, respond_with_reset, signal, w32,
}
use actor_network.Tcp.Tcb.Rate.{update_rto}

-- The bytes of the options, which the code finds through `get_header`; `none` is the null pointer that
-- it gives when the segment is too short.
abbrev pub option_bytes_of : TcpHdr → List ℕ → Option (List ℕ)
option_bytes_of h p =
    if leb (h.data_offset * 4) (length p)
    then some (take (h.data_offset * 4 - 20) (drop 20 p))
    else none

-- A read past the options is undefined, and so is a shift by 32 or more, below.
abbrev pub parse_result : Parsed → Option TcpOption
parse_result (parsed o) = some o
parse_result overread = none
parse_result unfinished = none

abbrev pub initial_cwnd : ℕ → ℕ
initial_cwnd smss = if ltb 2190 smss then 2 * smss else if ltb 1095 smss then 3 * smss else 4 * smss

-- `do_established`.
unfoldable pub do_established : ℕ → Tcb → Tcb
unfolding update_rto
do_established now t =
    signal connected (update_rto now t.snd.syn_tx_time (record t { state = established }))

module _ (be : BigEndian) (hw : HwFeatures) where
  unfoldable pub init_from_options : TcpHdr → List ℕ → Tcb → Option Tcb
  unfolding get_default_receive_window_size
  init_from_options h bytes t = do
    o ← parse_result (parse be bytes t.option)
    guard (ltb o.remote_win_scale 32)
    let r = record t.rcv { window_scale = o.local_win_scale; mss = local_mss hw }
    let window' = w32 (h.window * 2 ^ o.remote_win_scale)
    some (record t {
      option = record o { local_mss = local_mss hw };
      rcv = record r { window = get_default_receive_window_size r };
      snd = record t.snd {
        window_scale = o.remote_win_scale;
        mss = o.remote_mss;
        window = window';
        wl1 = h.seq;
        wl2 = h.ack;
        cwnd = initial_cwnd o.remote_mss;
        ssthresh = window';
      };
    })

  abbrev pub start_receiving : TcpHdr → Tcb → Tcb
  start_receiving h t = record t { rcv = record t.rcv { next = add h.seq 1; initial = h.seq } }

  -- `input_handle_listen_state`, where `isn` is what `get_isn` gives.
  unfoldable pub input_handle_listen_state : TcpSeq → ℕ → TcpHdr → List ℕ → Tcb → Option Tcb
  unfolding do_setup_isn do_syn_received init_from_options
  input_handle_listen_state isn now h p t0 = do
    bytes ← option_bytes_of h p
    let t = do_setup_isn isn (start_receiving h t0)
    c ← init_from_options h bytes (record t { rcv = record t.rcv { urgent = t.rcv.next } })
    some (do_syn_received now c)

  -- The SYN bit, 3.4.
  unfoldable pub synchronise : ℕ → TcpHdr → List ℕ → Tcb → Option Tcb
  unfolding init_from_options do_established do_syn_received output
  synchronise now h bytes t0 =
      let s = if h.f_ack then record t0.snd { unacknowledged = h.ack } else t0.snd in
      let t = record (start_receiving h t0) { snd = s } in
      if seq_gt s.unacknowledged s.initial
      then (do c ← init_from_options h bytes t; some (output (do_established now c)))
      else some (do_syn_received now t)

  -- `input_handle_syn_sent_state`.
  unfoldable pub input_handle_syn_sent_state : ℕ → TcpHdr → List ℕ → Tcb → Option Tcb
  unfolding respond_with_reset do_reset synchronise
  input_handle_syn_sent_state now h p t = do
    bytes ← option_bytes_of h p
    let s = t.snd
    let acceptable = h.f_ack && (seq_le s.unacknowledged h.ack && seq_le h.ack s.next)
    if h.f_ack && (seq_le h.ack s.initial || seq_gt h.ack s.next)
        then some (respond_with_reset h t)
        else if h.f_rst
        then some (if acceptable then do_reset t else t)
        else if h.f_syn
        then synchronise now h bytes t
        else some t

-- `connect`.
unfoldable pub connect : HwFeatures → TcpSeq → ℕ → Tcb → Tcb
unfolding do_setup_isn do_syn_sent get_default_receive_window_size
connect hw isn now t0 =
    let t = do_setup_isn isn t0 in
    let r = record t.rcv { window_scale = 7; mss = local_mss hw } in
    do_syn_sent now (record t {
      option = record t.option { local_win_scale = 7; local_mss = local_mss hw };
      rcv = record r { window = get_default_receive_window_size r };
    })
