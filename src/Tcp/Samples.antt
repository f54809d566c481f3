-- ===== src/Tcp/Samples.antt =====
-- A connection and segments for the tests.
use actor_network.Prelude.{[], false, none, some, true, ℕ, ◌∷◌}
use actor_network.Tcp.Header.{TcpHdr}
use actor_network.Tcp.Seq.{TcpSeq}
use actor_network.Tcp.Tcb.{HwFeatures, Receive, Send, Tcb, Unacked, established}
use actor_network.Tcp.Tests.{fresh_option}

abbrev pub seq_at : ℕ → TcpSeq
seq_at n = record { raw = n }

abbrev pub card : HwFeatures
card = record { mtu = 1500; max_packet_len = 1500; tx_tso = false; tx_csum_l4_offload = false }

abbrev pub in_flight_segment : Unacked
in_flight_segment = record {
  bytes = 1 ∷ 2 ∷ 3 ∷ 4 ∷ [];
  data_len = 4;
  nr_transmits = 3;
  tx_time = 500;
}

-- Four bytes are in flight, across the wrap of sequence numbers, and three wait.
abbrev pub sending : Send
sending = record {
  unacknowledged = seq_at 0xffff_fffe;
  next = seq_at 2;
  window = 1000;
  window_scale = 0;
  mss = 1460;
  wl1 = seq_at 100;
  wl2 = seq_at 0xffff_fffe;
  initial = seq_at 0xffff_fffd;
  unacked = in_flight_segment ∷ [];
  unsent = (5 ∷ 6 ∷ []) ∷ (7 ∷ []) ∷ [];
  unsent_len = 3;
  shut = false;
  acked_waits = false;
  current_queue_space = 7;
  available_waits = false;
  rttvar = 0;
  srtt = 0;
  first_rto_sample = true;
  syn_tx_time = 0;
  cwnd = 2920;
  ssthresh = 8000;
  dupacks = 0;
  syn_retransmit = 0;
  fin_retransmit = 0;
  limited_transfer = 0;
  partial_ack = 0;
  recover = seq_at 0xffff_fffd;
  window_probe = false;
  zero_window_probing_out = 0;
}

-- Two bytes are received, and two segments wait behind a gap.
abbrev pub receiving : Receive
receiving = record {
  next = seq_at 102;
  window = 29200;
  window_scale = 0;
  mss = 1460;
  urgent = seq_at 0;
  initial = seq_at 99;
  received = (10 ∷ 11 ∷ []) ∷ [];
  data_size = 2;
  out_of_order = (seq_at 103, 13 ∷ 14 ∷ []) ∷ (seq_at 107, 17 ∷ []) ∷ [];
  data_waits = true;
}

abbrev pub conn : Tcb
conn = record {
  state = established;
  local_port = 80;
  foreign_port = 5000;
  snd = sending;
  rcv = receiving;
  option = fresh_option;
  rto = 1000;
  persist_time_out = 1000;
  delayed_ack = none;
  retransmit_at = some 1500;
  persist_at = none;
  nr_full_seg_received = 0;
  packetq = [];
  resets = [];
  poll_active = false;
  signals = [];
}

-- A SYN, with four bytes of options.
abbrev pub syn_hdr : TcpHdr
syn_hdr = record {
  src_port = 5000;
  dst_port = 80;
  seq = seq_at 99;
  ack = seq_at 0;
  rsvd1 = 0;
  data_offset = 6;
  f_fin = false;
  f_syn = true;
  f_rst = false;
  f_psh = false;
  f_ack = false;
  f_urg = false;
  rsvd2 = 0;
  window = 0;
  checksum = 0;
  urgent = 0;
}

-- A segment with the FIN, and its 20 bytes.
abbrev pub fin_hdr : TcpHdr
fin_hdr = record syn_hdr {
  seq = seq_at 102;
  ack = seq_at 2;
  data_offset = 5;
  f_fin = true;
  f_syn = false;
  f_ack = true;
  window = 1000;
}
