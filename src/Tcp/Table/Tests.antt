-- ===== src/Tcp/Table/Tests.antt =====
-- The table at a SYN for a listener, and at a segment of a connection.
use actor_network.Prelude.{
  Ensures, List, Option, [], none, refl, some, true, ℕ, ◌>>=◌, ◌∷◌, ◌≡◌, ◌⊎◌,
}
use actor_network.Tcp.Header.{read}
use actor_network.Tcp.Option.{parse}
use actor_network.Tcp.Samples.{card, conn, seq_at, syn_hdr}
use actor_network.Tcp.Table.{
  Conn, ConnId, Listener, Tcp, conn_eq, conn_id, find_listener, find_tcb, received,
}
use actor_network.Tcp.Table.Isolated.{Isolated, received-Isolated}
use actor_network.Tcp.Table.Keyed.{Keyed, one-Keyed}
use actor_network.Tcp.Table.Opened.{IsOpening, IsStray, received-IsOpening}
use actor_network.Tcp.Tcb.{TcpState, syn_received}
use actor_network.Tcp.Tests.{big_endian, core_align}

abbrev peer_id : ConnId
peer_id = record { local_ip = 1; foreign_ip = 2; local_port = 80; foreign_port = 5000 }

abbrev other_id : ConnId
other_id = record { local_ip = 1; foreign_ip = 3; local_port = 80; foreign_port = 5000 }

abbrev table : Tcp
table = record {
  tcbs = (other_id, record { own = other_id; tcb = conn }) ∷ [];
  listening = record { port = 80; pending = 0; queued = 0; max_size = 100 } ∷ [];
  without_tcb = [];
}

-- The SYN's header, and four bytes of options that tell an MSS of 256.
abbrev syn_bytes : List ℕ
syn_bytes =
    19 ∷ 136 ∷ 0 ∷ 80 ∷ 0 ∷ 0 ∷ 0 ∷ 99 ∷ 0 ∷ 0 ∷ 0 ∷ 0 ∷ 96 ∷ 2 ∷ 0 ∷ 0 ∷ 0 ∷ 0 ∷ 0 ∷ 0 ∷ 2 ∷ 4 ∷ 1
    ∷ 0 ∷ []

syn_read : read big_endian syn_bytes ≡ some syn_hdr
unfolding read
syn_read = refl

abbrev state_of : Option Conn → Option TcpState
state_of none = none
state_of (some c) = some c.tcb.state

abbrev pending_of : Option Listener → Option ℕ
pending_of none = none
pending_of (some l) = some l.pending

-- What is known of the peer's connection, and how many are pending.
abbrev opened_state : Tcp → Option TcpState × Option ℕ
opened_state t = (state_of (find_tcb peer_id t.tcbs), pending_of (find_listener 80 t.listening))

syn_opens :
    (received big_endian core_align card (seq_at 7) 600 conn true 2 1 syn_bytes table >>= λ c.
    some (opened_state c))
    ≡ some (some syn_received, some 1)
unfolding received parse find_tcb find_listener conn_eq
syn_opens = refl

table-Keyed : Keyed table
table-Keyed = one-Keyed (record { own = other_id; tcb = conn })

received-Isolated_example :
    Ensures
      (received big_endian core_align card (seq_at 7) 600 conn true 2 1 syn_bytes table)
      (Isolated (conn_id big_endian core_align card 2 1 syn_hdr) table)
received-Isolated_example =
    received-Isolated big_endian core_align card (seq_at 7) 600 conn true 2 1 syn_bytes syn_hdr
      table syn_read table-Keyed

not_known : find_tcb (conn_id big_endian core_align card 2 1 syn_hdr) table.tcbs ≡ none
unfolding find_tcb conn_eq
not_known = refl

received-IsOpening_example :
    Ensures (received big_endian core_align card (seq_at 7) 600 conn true 2 1 syn_bytes table) (λ c.
      IsStray syn_hdr table c
      ⊎ IsOpening (conn_id big_endian core_align card 2 1 syn_hdr) syn_hdr table)
received-IsOpening_example =
    received-IsOpening big_endian core_align card (seq_at 7) 600 conn true 2 1 syn_bytes syn_hdr
      table syn_read not_known
