-- ===== src/Tcp/Table.antt =====
-- `tcp::received` of include/nil/actor/network/tcp.hh: the table of connections, the listeners, and
-- where a segment goes. The maps are lists of their entries.
pub mod Keyed
pub mod Isolated
pub mod Opened
mod Tests
use actor_network.Prelude.{
  Bool, List, Option, [], false, if◌then◌else◌, leb, ltb, none, some, true, ℕ, ◌%◌, ◌&&◌, ◌*◌, ◌++◌,
  ◌+◌, ◌-◌, ◌==◌, ◌>>=◌, ◌^◌, ◌||◌, ◌∷◌,
}
use actor_network.Tcp.Core.{Align, BigEndian}
use actor_network.Tcp.Header.{TcpHdr, read}
use actor_network.Tcp.Seq.{TcpSeq}
use actor_network.Tcp.Tcb.{
  HwFeatures, Signal, Tcb, accepted, closed, is_in, removed, reset_hdr, syn_sent,
}
use actor_network.Tcp.Tcb.Open.{input_handle_listen_state, input_handle_syn_sent_state}
use actor_network.Tcp.Tcb.Segment.Input.{input_handle_other_state}

-- `l4connid`; addresses are numbers.
pub record ConnId : Type 0 where
  pub local_ip : ℕ
  pub foreign_ip : ℕ
  pub local_port : ℕ
  pub foreign_port : ℕ

-- A connection in the table: the addresses and ports of its own, which its constructor sets and which
-- nothing changes afterwards, and what its handlers work on, which has the ports again for the headers.
pub record Conn : Type 0 where
  pub own : ConnId
  pub tcb : Tcb

unfoldable pub conn_eq : ConnId → ConnId → Bool
conn_eq a b =
    a.local_ip == b.local_ip
    && (a.foreign_ip == b.foreign_ip
        && (a.local_port == b.local_port && a.foreign_port == b.foreign_port))

-- A listener: its port, the connections that are being opened, and its queue's length and limit.
pub record Listener : Type 0 where
  pub port : ℕ
  pub pending : ℕ
  pub queued : ℕ
  pub max_size : ℕ

pub record Tcp : Type 0 where
  pub tcbs : List (ConnId × Conn)
  pub listening : List Listener
  pub without_tcb : List TcpHdr

unfoldable pub find_tcb : ConnId → List (ConnId × Conn) → Option Conn
find_tcb id [] = none
find_tcb id ((k, t) ∷ m) = let rest = find_tcb id m in if conn_eq k id then some t else rest

unfoldable pub put_tcb : ConnId → Conn → List (ConnId × Conn) → List (ConnId × Conn)
put_tcb id t [] = (id, t) ∷ []
put_tcb id t ((k, u) ∷ m) =
    let rest = put_tcb id t m in if conn_eq k id then (k, t) ∷ m else (k, u) ∷ rest

unfoldable pub erase_tcb : ConnId → List (ConnId × Conn) → List (ConnId × Conn)
erase_tcb id [] = []
erase_tcb id ((k, u) ∷ m) =
    let rest = erase_tcb id m in if conn_eq k id then rest else (k, u) ∷ rest

unfoldable pub find_listener : ℕ → List Listener → Option Listener
find_listener port [] = none
find_listener port (l ∷ ls) =
    let rest = find_listener port ls in if l.port == port then some l else rest

abbrev pub full : Listener → Bool
full l = leb l.max_size (l.pending + l.queued)

-- The listener of a port is changed.
unfoldable pub at_port : (Listener → Listener) → ℕ → List Listener → List Listener
at_port f port [] = []
at_port f port (l ∷ ls) =
    let rest = at_port f port ls in if l.port == port then f l ∷ ls else l ∷ rest

abbrev inc_pending : Listener → Listener
inc_pending l = record l { pending = (l.pending + 1) % 2 ^ 64 }

abbrev pub one_more_pending : ConnId → Tcp → Tcp
one_more_pending id t = record t { listening = at_port inc_pending id.local_port t.listening }

-- `add_connected_tcb`, at the listener.
abbrev connected_one : Listener → Listener
connected_one l = record l { queued = l.queued + 1; pending = (l.pending + 2 ^ 64 - 1) % 2 ^ 64 }

abbrev is_removed : Signal → Bool
is_removed removed = true
is_removed _ = false

abbrev is_accepted : Signal → Bool
is_accepted accepted = true
is_accepted _ = false

abbrev told_of : (Signal → Bool) → List Signal → Bool
told_of p [] = false
told_of p (s ∷ ss) = p s || told_of p ss

-- The tables after a handler of the connection that is found, or was inserted, under `id`: the
-- connection is changed where it is. `remove_from_tcbs` and `add_connected_tcb` go by its own addresses
-- and ports, and the RSTs that it sends follow.
abbrev pub settle : ConnId → Tcp → Conn → Tcp
settle id t c =
    let held = put_tcb id c t.tcbs in
    record {
      tcbs = if told_of is_removed c.tcb.signals then erase_tcb c.own held else held;
      listening =
          if told_of is_accepted c.tcb.signals
          then at_port connected_one c.own.local_port t.listening
          else t.listening;
      without_tcb = c.tcb.resets ++ t.without_tcb;
    }

-- A connection as its constructor makes it; `memory` is what the members without an initial value have.
abbrev pub new_tcb : ConnId → Tcb → Tcb
new_tcb id memory = record memory {
  state = closed;
  local_port = id.local_port;
  foreign_port = id.foreign_port;
  snd = record memory.snd {
    unacked = [];
    unsent = [];
    unsent_len = 0;
    shut = false;
    acked_waits = false;
    current_queue_space = 0;
    available_waits = false;
    first_rto_sample = true;
    dupacks = 0;
    syn_retransmit = 0;
    fin_retransmit = 0;
    limited_transfer = 0;
    partial_ack = 0;
    window_probe = false;
    zero_window_probing_out = 0;
  };
  rcv = record memory.rcv { received = []; data_size = 0; out_of_order = []; data_waits = false };
  option = record memory.option {
    mss_received = false;
    win_scale_received = false;
    timestamps_received = false;
    sack_received = false;
    remote_mss = 536;
    remote_win_scale = 0;
    local_win_scale = 0;
  };
  rto = 1000;
  persist_time_out = 1000;
  delayed_ack = none;
  retransmit_at = none;
  persist_at = none;
  nr_full_seg_received = 0;
  packetq = [];
  resets = [];
  poll_active = false;
  signals = [];
}

abbrev pub stray : TcpHdr → Tcp → Tcp
stray h t = record t {
  without_tcb = if h.f_rst then t.without_tcb else reset_hdr h ∷ t.without_tcb;
}

module _ (be : BigEndian) (core : Align) (hw : HwFeatures) where
  -- A segment of a known connection.
  unfoldable pub to_tcb : ℕ → ConnId → TcpHdr → List ℕ → Tcp → Conn → Option Tcp
  unfolding input_handle_syn_sent_state input_handle_other_state erase_tcb put_tcb at_port
  to_tcb now id h p t c0 = do
    let quiet = record c0.tcb { resets = []; signals = [] }
    c ←
        if is_in c0.tcb.state (syn_sent ∷ [])
        then input_handle_syn_sent_state be hw now h p quiet
        else input_handle_other_state be core hw now h p quiet
    some (settle id t (record c0 { tcb = c }))

  -- A segment to a listener.
  unfoldable pub to_listener : TcpSeq → ℕ → Tcb → ConnId → TcpHdr → List ℕ → Tcp → Option Tcp
  unfolding input_handle_listen_state at_port put_tcb
  to_listener isn now memory id h p t =
      let opened = input_handle_listen_state be hw isn now h p (new_tcb id memory) >>= λ c.
      some (settle id (one_more_pending id t) (record { own = id; tcb = c })) in
      if h.f_rst
      then some t
      else if h.f_ack
      then some (stray h t)
      else if h.f_syn
      then opened
      else some t

  abbrev pub without_conn :
      Option Listener → TcpSeq → ℕ → Tcb → ConnId → TcpHdr → List ℕ → Tcp → Option Tcp
  without_conn none isn now memory id h p t = some (stray h t)
  without_conn (some l) isn now memory id h p t =
      let opened = to_listener isn now memory id h p t in
      if full l then some (stray h t) else opened

  abbrev pub dispatch : Option Conn → TcpSeq → ℕ → Tcb → ConnId → TcpHdr → List ℕ → Tcp → Option Tcp
  dispatch (some c) isn now memory id h p t = to_tcb now id h p t c
  dispatch none isn now memory id h p t =
      without_conn (find_listener id.local_port t.listening) isn now memory id h p t

  abbrev pub conn_id : ℕ → ℕ → TcpHdr → ConnId
  conn_id from to h = record {
    local_ip = to;
    foreign_ip = from;
    local_port = h.dst_port;
    foreign_port = h.src_port;
  }

  abbrev pub received_hdr :
      Option TcpHdr → TcpSeq → ℕ → Tcb → Bool → ℕ → ℕ → List ℕ → Tcp → Option Tcp
  received_hdr none isn now memory valid from to p t = some t
  received_hdr (some h) isn now memory valid from to p t =
      let id = conn_id from to h in
      let rest = dispatch (find_tcb id t.tcbs) isn now memory id h p t in
      if ltb (h.data_offset * 4) 20 then some t else if valid then rest else some t

  -- `received`. `valid` is whether the device checked the checksum or it comes out at 0; `isn` is what
  -- `get_isn` gives.
  unfoldable pub received : TcpSeq → ℕ → Tcb → Bool → ℕ → ℕ → List ℕ → Tcp → Option Tcp
  unfolding read to_tcb to_listener find_tcb find_listener
  received isn now memory valid from to p t =
      received_hdr (read be p) isn now memory valid from to p t
