-- ===== src/Tcp/Tcb.antt =====
-- `tcp::tcb` of include/nil/actor/network/tcp.hh: the state of a connection and the small helpers that
-- change it. A packet is its payload's bytes. Times are in milliseconds, and `now` is what the clock
-- says. A promise is the flag that one waits; what is told to the outside (promises that are settled,
-- the polling set, the table of connections) is listed in `signals`, the latest first. `none` is a
-- failed assertion or undefined behaviour.
pub mod Rate
pub mod Transmit
pub mod Acks
pub mod Reader
pub mod Timers
pub mod Open
pub mod Segment
pub mod Api
pub mod Machine
pub mod Stream
mod Tests
use actor_network.Prelude.{
  Bool, List, Option, [], false, if◌then◌else◌, ltb, min, none, not, some, true, ℕ, ◌%◌, ◌&&◌, ◌*◌,
  ◌+◌, ◌-◌, ◌==◌, ◌^◌, ◌||◌, ◌∷◌,
}
use actor_network.Tcp.Header.{TcpHdr}
use actor_network.Tcp.Option.{TcpOption}
use actor_network.Tcp.Option.RoundTrip.{told}
use actor_network.Tcp.Seq.{TcpSeq, add}

pub data TcpState : Type 0 where
  closed listen syn_sent syn_received established : TcpState
  fin_wait_1 fin_wait_2 close_wait closing last_ack time_wait : TcpState

-- The bit of each state in `tcp_state`.
abbrev pub state_bit : TcpState → ℕ
state_bit closed = 1
state_bit listen = 2
state_bit syn_sent = 4
state_bit syn_received = 8
state_bit established = 16
state_bit fin_wait_1 = 32
state_bit fin_wait_2 = 64
state_bit close_wait = 128
state_bit closing = 256
state_bit last_ack = 512
state_bit time_wait = 1024

-- `in_state(A | B | …)`: no two states share a bit.
abbrev pub is_in : TcpState → List TcpState → Bool
is_in s [] = false
is_in s (x ∷ xs) = state_bit s == state_bit x || is_in s xs

pub data TcpError : Type 0 where
  reset_error connect_error refused_error aborted_error : TcpError

pub data Signal : Type 0 where
  connected accepted removed polled : Signal
  data_received all_data_acked send_available : Signal
  connect_failed data_failed all_acked_failed send_failed : TcpError → Signal

pub record Unacked : Type 0 where
  pub bytes : List ℕ
  pub data_len : ℕ
  pub nr_transmits : ℕ
  pub tx_time : ℕ

pub record Send : Type 0 where
  pub unacknowledged : TcpSeq
  pub next : TcpSeq
  pub window : ℕ
  pub window_scale : ℕ
  pub mss : ℕ
  pub wl1 : TcpSeq
  pub wl2 : TcpSeq
  pub initial : TcpSeq
  pub unacked : List Unacked
  pub unsent : List (List ℕ)
  pub unsent_len : ℕ
  pub shut : Bool
  pub acked_waits : Bool
  pub current_queue_space : ℕ
  pub available_waits : Bool
  pub rttvar : ℕ
  pub srtt : ℕ
  pub first_rto_sample : Bool
  pub syn_tx_time : ℕ
  pub cwnd : ℕ
  pub ssthresh : ℕ
  pub dupacks : ℕ
  pub syn_retransmit : ℕ
  pub fin_retransmit : ℕ
  pub limited_transfer : ℕ
  pub partial_ack : ℕ
  pub recover : TcpSeq
  pub window_probe : Bool
  pub zero_window_probing_out : ℕ

pub record Receive : Type 0 where
  pub next : TcpSeq
  pub window : ℕ
  pub window_scale : ℕ
  pub mss : ℕ
  pub urgent : TcpSeq
  pub initial : TcpSeq
  pub received : List (List ℕ)
  pub data_size : ℕ
  pub out_of_order : List (TcpSeq × List ℕ)
  pub data_waits : Bool

-- A segment in `_packetq`: its header as filled in, before the checksum, its options and payload, the
-- offload data, and the length that the pseudo header's checksum is taken with.
pub record Sent : Type 0 where
  pub hdr : TcpHdr
  pub option_bytes : List ℕ
  pub payload : List ℕ
  pub needs_csum : Bool
  pub tso_seg_size : ℕ
  pub pseudo_hdr_seg_len : ℕ

pub record Tcb : Type 0 where
  pub state : TcpState
  pub local_port : ℕ
  pub foreign_port : ℕ
  pub snd : Send
  pub rcv : Receive
  pub option : TcpOption
  pub rto : ℕ
  pub persist_time_out : ℕ
  pub delayed_ack : Option ℕ
  pub retransmit_at : Option ℕ
  pub persist_at : Option ℕ
  pub nr_full_seg_received : ℕ
  pub packetq : List Sent
  pub resets : List TcpHdr
  pub poll_active : Bool
  pub signals : List Signal

-- What the code uses of `hw_features`.
pub record HwFeatures : Type 0 where
  pub mtu : ℕ
  pub max_packet_len : ℕ
  pub tx_tso : Bool
  pub tx_csum_l4_offload : Bool

abbrev pub max_queue_space : ℕ
max_queue_space = 212992

abbrev pub max_receive_buf_size : ℕ
max_receive_buf_size = 3737600

abbrev pub rto_min : ℕ
rto_min = 1000

abbrev pub rto_max : ℕ
rto_max = 60000

abbrev pub max_nr_retransmit : ℕ
max_nr_retransmit = 5

abbrev pub w32 : ℕ → ℕ
w32 n = n % 2 ^ 32

abbrev pub is_empty {ℓ} : {A : Type ℓ} → List A → Bool
is_empty [] = true
is_empty (x ∷ xs) = false

abbrev pub signal : Signal → Tcb → Tcb
signal s t = record t { signals = s ∷ t.signals }

-- `output`: the connection is put into the polling set, unless it is there.
abbrev pub output_if : Bool → Tcb → Tcb
output_if b t = record t {
  poll_active = b || t.poll_active;
  signals = if b && not t.poll_active then polled ∷ t.signals else t.signals;
}

unfoldable pub output : Tcb → Tcb
output t = output_if true t

abbrev pub start_retransmit_timer : ℕ → Tcb → Tcb
start_retransmit_timer now t = record t { retransmit_at = some (now + t.rto) }

abbrev pub stop_retransmit_timer : Tcb → Tcb
stop_retransmit_timer t = record t { retransmit_at = none }

abbrev pub start_persist_timer : ℕ → Tcb → Tcb
start_persist_timer now t = record t { persist_at = some (now + t.persist_time_out) }

abbrev pub stop_persist_timer : Tcb → Tcb
stop_persist_timer t = record t { persist_at = none }

abbrev pub clear_delayed_ack : Tcb → Tcb
clear_delayed_ack t = record t { delayed_ack = none }

unfoldable pub get_default_receive_window_size : Receive → ℕ
get_default_receive_window_size r = w32 (29200 * 2 ^ r.window_scale)

unfoldable pub get_modified_receive_window_size : Receive → ℕ
unfolding get_default_receive_window_size
get_modified_receive_window_size r =
    min (if ltb max_receive_buf_size r.data_size then 0 else max_receive_buf_size - r.data_size)
      (get_default_receive_window_size r)

abbrev pub local_mss : HwFeatures → ℕ
local_mss hw = (hw.mtu + 2 ^ 16 - 40) % 2 ^ 16

unfoldable pub signal_data_received : Tcb → Tcb
signal_data_received t = record t {
  rcv = record t.rcv { data_waits = false };
  signals = if t.rcv.data_waits then data_received ∷ t.signals else t.signals;
}

-- `signal_all_data_acked`, on a condition of its caller.
unfoldable pub signal_all_data_acked : Bool → Tcb → Tcb
signal_all_data_acked b t =
    let told = b && (t.snd.acked_waits && t.snd.unsent_len == 0) in
    record t {
      snd = record t.snd { acked_waits = not told && t.snd.acked_waits };
      signals = if told then all_data_acked ∷ t.signals else t.signals;
    }

unfoldable pub signal_send_available : Tcb → Tcb
signal_send_available t =
    let told = t.snd.available_waits && ltb t.snd.current_queue_space max_queue_space in
    record t {
      snd = record t.snd { available_waits = not told && t.snd.available_waits };
      signals = if told then send_available ∷ t.signals else t.signals;
    }

-- `cleanup`, which leaves `unsent_len` as it is.
unfoldable pub cleanup : Tcb → Tcb
cleanup t = signal removed (record t {
  snd = record t.snd { unsent = []; unacked = [] };
  rcv = record t.rcv { out_of_order = []; data_size = 0; received = [] };
  retransmit_at = none;
  delayed_ack = none;
})

abbrev fail_waiter : Bool → Signal → List Signal → List Signal
fail_waiter waits s ss = if waits then s ∷ ss else ss

unfoldable pub do_reset : Tcb → Tcb
unfolding cleanup
do_reset t =
    let c = cleanup (record t { state = closed }) in
    record c {
      rcv = record c.rcv { data_waits = false };
      snd = record c.snd { acked_waits = false; available_waits = false };
      signals = fail_waiter c.snd.available_waits (send_failed reset_error) (
          fail_waiter c.snd.acked_waits (all_acked_failed reset_error)
            (fail_waiter c.rcv.data_waits (data_failed reset_error) c.signals));
    }

unfoldable pub do_time_wait : Tcb → Tcb
unfolding cleanup
do_time_wait t = cleanup (record t { state = time_wait })

unfoldable pub do_closed : Tcb → Tcb
unfolding cleanup
do_closed t = cleanup (record t { state = closed })

unfoldable pub do_syn_sent : ℕ → Tcb → Tcb
unfolding output
do_syn_sent now t = output (record t { state = syn_sent; snd = record t.snd { syn_tx_time = now } })

unfoldable pub do_syn_received : ℕ → Tcb → Tcb
unfolding output
do_syn_received now t =
    output (record t { state = syn_received; snd = record t.snd { syn_tx_time = now } })

-- `do_setup_isn`, where `isn` is what `get_isn` gives.
unfoldable pub do_setup_isn : TcpSeq → Tcb → Tcb
do_setup_isn isn t = record t {
  snd = record t.snd { initial = isn; unacknowledged = isn; next = add isn 1; recover = isn };
}

abbrev pub do_local_fin_acked : Send → Send
do_local_fin_acked s = record s { unacknowledged = add s.unacknowledged 1; next = add s.next 1 }

abbrev pub syn_needs_on : Tcb → Bool
syn_needs_on t = is_in t.state (syn_sent ∷ syn_received ∷ [])

abbrev pub fin_needs_on : Tcb → Bool
fin_needs_on t =
    is_in t.state (fin_wait_1 ∷ closing ∷ last_ack ∷ []) && t.snd.shut && t.snd.unsent_len == 0

abbrev pub ack_needs_on : Tcb → Bool
ack_needs_on t = not (is_in t.state (closed ∷ listen ∷ syn_sent ∷ []))

abbrev pub foreign_will_not_send : Tcb → Bool
foreign_will_not_send t = is_in t.state (closing ∷ time_wait ∷ close_wait ∷ last_ack ∷ closed ∷ [])

abbrev pub exit_fast_recovery : Send → Send
exit_fast_recovery s = record s { dupacks = 0; limited_transfer = 0; partial_ack = 0 }

-- The header of a RST that answers a segment.
abbrev pub reset_hdr : TcpHdr → TcpHdr
reset_hdr h = record {
  src_port = h.dst_port;
  dst_port = h.src_port;
  seq = if h.f_ack then h.ack else record { raw = 0 };
  ack = if h.f_syn then add h.seq 1 else record { raw = 0 };
  rsvd1 = 0;
  data_offset = 5;
  f_fin = false;
  f_syn = false;
  f_rst = true;
  f_psh = false;
  f_ack = h.f_syn;
  f_urg = false;
  rsvd2 = 0;
  window = 0;
  checksum = 0;
  urgent = 0;
}

-- `tcp::respond_with_reset`: a RST, unless the segment is one.
unfoldable pub respond_with_reset : TcpHdr → Tcb → Tcb
respond_with_reset h t = record t { resets = if h.f_rst then t.resets else reset_hdr h ∷ t.resets }
