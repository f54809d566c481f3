-- ===== src/Ip/Samples.antt =====
-- Hosts, headers and packets for the tests.
use actor_network.Prelude.{List, [], false, none, true, ℕ, ◌++◌, ◌^◌, ◌∷◌}
use actor_network.Arp.{Arp}
use actor_network.Ip.{Frag, FragId, IpEnv, IpFeatures, IpHdr, Ipv4, udp_num}
use actor_network.Ip.Fragments.{fresh_frag}
use actor_network.Ip.Header.{write_ip}
use actor_network.Ip.Send.{Route}
use actor_network.Packet.Impl.{size}
use actor_network.Tcp.Tests.{big_endian}

-- A link with room for 8 bytes behind the header of a packet; the device works on the checksums.
abbrev pub card : IpFeatures
card = record {
  tx_csum_ip_offload = true;
  rx_csum_offload = true;
  tx_tso = false;
  tx_ufo = false;
  mtu = 28;
}

abbrev pub test_env : IpEnv
test_env = record {
  be = big_endian;
  features = card;
  hw_address = 17;
  rss_key = 209 ∷ 129 ∷ 198 ∷ 44 ∷ 247 ∷ 244 ∷ [];
  hash2cpu = λ hash. 0;
  this_shard = 0;
  impl_size = 100;
  filter = λ h p from. false;
}

abbrev pub quiet_arp : Arp
quiet_arp = record {
  l2self = 17;
  l3self = 2;
  table = [];
  in_progress = [];
  next_promise = 0;
  settled = [];
  packetq = [];
}

abbrev pub test_host : Ipv4
test_host = record {
  arp = quiet_arp;
  host_address = 2;
  gw_address = 0;
  netmask = 0;
  frags = [];
  frags_age = [];
  frag_mem = 0;
  frag_timer = none;
  packetq = [];
  pkt_provider_idx = 0;
  deliveries = [];
  forwarded = [];
}

-- A header of UDP from host 1 to host 2.
abbrev pub header : ℕ → ℕ → IpHdr
header len frag = record {
  ihl = 5;
  ver = 4;
  dscp = 0;
  ecn = 0;
  len = len;
  id = 7;
  frag = frag;
  ttl = 64;
  ip_proto = udp_num;
  csum = 0;
  src_ip = 1;
  dst_ip = 2;
}

-- The datagram 0, 1, ... 8 in two fragments.
abbrev pub first_hdr : IpHdr
first_hdr = header 28 (2 ^ 13)

abbrev pub last_hdr : IpHdr
last_hdr = header 21 1

unfoldable pub first_fragment : List ℕ
unfolding write_ip
first_fragment = write_ip big_endian first_hdr ++ (0 ∷ 1 ∷ 2 ∷ 3 ∷ 4 ∷ 5 ∷ 6 ∷ 7 ∷ [])

unfoldable pub last_fragment : List ℕ
unfolding write_ip
last_fragment = write_ip big_endian last_hdr ++ (8 ∷ [])

abbrev pub to_host : Route
to_host = record { to = 2; proto_num = udp_num; e_dst = 17 }

-- An entry as big as that, begun at some time.
abbrev pub entry : ℕ → ℕ → Frag
entry size time = record fresh_frag { mem_size = size; rx_time = time }

abbrev pub some_id : ℕ → FragId
some_id n = record { src_ip = 1; dst_ip = 2; identification = n; protocol = udp_num }

abbrev pub crowded : Ipv4
crowded = record test_host {
  frags = (some_id 1, entry 5000000 1000) ∷ (some_id 2, entry 200 40000) ∷ [];
  frags_age = some_id 1 ∷ some_id 2 ∷ [];
  frag_mem = 5000200;
}
