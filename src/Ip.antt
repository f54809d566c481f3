-- ===== src/Ip.antt =====
-- `ipv4` of include/nil/actor/network/ip.hh and src/network/ip.cc: its state, on which the modules
-- below work. An address is a number, a packet its bytes; what the packet knows besides, that it was
-- put together from fragments, is an argument where it is looked at. Time is in milliseconds.
--
-- The calls that leave the component are lists in the order in which they are made: what was handed to
-- a protocol above (`deliveries`), and what was forwarded to another shard (`forwarded`). The hash map
-- of the fragments is a list of its entries.
mod Samples
mod Tests
pub mod Header
pub mod Hash
pub mod Send
pub mod Fragments
pub mod Receive
pub mod Provide
pub mod Icmp
use actor_network.Prelude.{Bool, List, Option, ℕ, ◌%◌, ◌&&◌, ◌*◌, ◌/◌, ◌==◌, ◌^◌}
use actor_network.Arp.{Arp}
use actor_network.Merger.{Merger}
use actor_network.Tcp.Core.{BigEndian}

pub record IpHdr : Type 0 where
  pub ihl : ℕ
  pub ver : ℕ
  pub dscp : ℕ
  pub ecn : ℕ
  pub len : ℕ
  pub id : ℕ
  pub frag : ℕ
  pub ttl : ℕ
  pub ip_proto : ℕ
  pub csum : ℕ
  pub src_ip : ℕ
  pub dst_ip : ℕ

-- `mf()`, `df()` and `offset()`, of 16-bit fields.
abbrev pub mf_of : IpHdr → Bool
mf_of h = h.frag / 2 ^ 13 % 2 == 1

abbrev pub df_of : IpHdr → Bool
df_of h = h.frag / 2 ^ 14 % 2 == 1

abbrev pub offset_of : IpHdr → ℕ
offset_of h = h.frag * 2 ^ 3 % 2 ^ 16

-- `ipv4_frag_id`, and its `operator==`.
pub record FragId : Type 0 where
  pub src_ip : ℕ
  pub dst_ip : ℕ
  pub identification : ℕ
  pub protocol : ℕ

abbrev pub same_id : FragId → FragId → Bool
same_id x y =
    x.src_ip == y.src_ip
    && x.dst_ip == y.dst_ip
    && x.identification == y.identification
    && x.protocol == y.protocol

-- `frag`: what has come of a datagram.
pub record Frag : Type 0 where
  pub header : List ℕ
  pub ip_data : Merger
  pub rx_time : ℕ
  pub mem_size : ℕ
  pub last_frag_received : Bool

-- `l3packet`, of the protocol number of IPv4, with the flag of its offload information.
pub record L3Packet : Type 0 where
  pub to : ℕ
  pub bytes : List ℕ
  pub needs_ip_csum : Bool

-- `l4packet`.
pub record L4Packet : Type 0 where
  pub to : ℕ
  pub bytes : List ℕ
  pub e_dst : ℕ
  pub proto_num : ℕ

-- The arguments of a call of `received` of the protocol `proto`.
pub record Delivery : Type 0 where
  pub proto : ℕ
  pub bytes : List ℕ
  pub source : ℕ
  pub target : ℕ

pub record Ipv4 : Type 0 where
  pub arp : Arp
  pub host_address : ℕ
  pub gw_address : ℕ
  pub netmask : ℕ
  pub frags : List (FragId × Frag)
  pub frags_age : List FragId
  pub frag_mem : ℕ
  pub frag_timer : Option ℕ
  pub packetq : List L3Packet
  pub pkt_provider_idx : ℕ
  pub deliveries : List Delivery
  pub forwarded : List (ℕ × List ℕ)

-- The fields of `hw_features` that `ipv4` reads.
pub record IpFeatures : Type 0 where
  pub tx_csum_ip_offload : Bool
  pub rx_csum_offload : Bool
  pub tx_tso : Bool
  pub tx_ufo : Bool
  pub mtu : ℕ

-- What `ipv4` takes from elsewhere: the order of bytes in words; the device's features, address,
-- hash key and choice of a shard; `sizeof(packet::impl)`; and whether the packet filter, if one is
-- set, handles a packet.
pub record IpEnv : Type 0 where
  pub be : BigEndian
  pub features : IpFeatures
  pub hw_address : ℕ
  pub rss_key : List ℕ
  pub hash2cpu : ℕ → ℕ
  pub this_shard : ℕ
  pub impl_size : ℕ
  pub filter : IpHdr → List ℕ → ℕ → Bool

-- `ip_protocol_num`.
abbrev pub icmp_num : ℕ
icmp_num = 1

abbrev pub tcp_num : ℕ
tcp_num = 6

abbrev pub udp_num : ℕ
udp_num = 17

abbrev pub ipv4_hdr_len_min : ℕ
ipv4_hdr_len_min = 20

abbrev pub ip_packet_len_max : ℕ
ip_packet_len_max = 65535

abbrev pub frag_timeout_span : ℕ
frag_timeout_span = 30000

abbrev pub frag_low_thresh : ℕ
frag_low_thresh = 3 * 1024 * 1024

abbrev pub frag_high_thresh : ℕ
frag_high_thresh = 4 * 1024 * 1024
