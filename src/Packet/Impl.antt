-- ===== src/Packet/Impl.antt =====
-- `packet::impl` of include/nil/actor/network/packet.hh: the fragment array, the internal buffer
-- with its headroom, allocation and the copies that growing makes.
--
-- A pointer into `_data` is its offset; any other pointer is `external`. A fragment carries the
-- bytes it points to, since the packet code never writes to a buffer after filling it. `none` is
-- a failed assertion or an access outside an array. Deleters are not modelled.
pub mod Valid
pub mod Laws
use actor_network.Prelude.{
  Bool, List, Option, [], false, guard, if◌then◌else◌, leb, length, ltb, max, none, some, ℕ, ◌%◌,
  ◌*◌, ◌++◌, ◌+◌, ◌>>=◌, ◌>>◌, ◌^◌, ◌∷◌,
}

pub data Base : Type 0 where
  internal : ℕ → Base
  external : Base

pub record Fragment : Type 0 where
  pub base : Base
  pub bytes : List ℕ

abbrev pub size : Fragment → ℕ
size f = length f.bytes

pub record OffloadInfo : Type 0 where
  pub protocol : ℕ
  pub needs_csum : Bool
  pub ip_hdr_len : ℕ
  pub tcp_hdr_len : ℕ
  pub udp_hdr_len : ℕ
  pub needs_ip_csum : Bool
  pub reassembled : Bool
  pub tso_seg_size : ℕ
  pub vlan_tci : Option ℕ

-- `ip_protocol_num::unused` is 255.
abbrev pub no_offload : OffloadInfo
no_offload = record {
  protocol = 255;
  needs_csum = false;
  ip_hdr_len = 20;
  tcp_hdr_len = 20;
  udp_hdr_len = 8;
  needs_ip_csum = false;
  reassembled = false;
  tso_seg_size = 0;
  vlan_tci = none;
}

abbrev pub internal_data_size : ℕ
internal_data_size = 112

abbrev pub default_nr_frags : ℕ
default_nr_frags = 4

abbrev pub u32 : ℕ → ℕ
u32 n = n % 2 ^ 32

-- `_nr_frags` is the length of `frags`, and `allocated` the capacity of the array.
pub record Packet : Type 0 where
  pub len : ℕ
  pub allocated : ℕ
  pub offload : OffloadInfo
  pub rss_hash : Option ℕ
  pub headroom : ℕ
  pub frags : List Fragment

abbrev pub nr_frags : Packet → ℕ
nr_frags p = length p.frags

-- `operator new` asserts that the number of fragments fits 16 bits.
unfoldable pub allocate : ℕ → Option Packet
allocate n = do
  let nr = max n default_nr_frags
  guard (ltb nr (2 ^ 16))
  some (record {
    len = 0;
    allocated = nr;
    offload = no_offload;
    rss_hash = none;
    headroom = internal_data_size;
    frags = [];
  })

abbrev pub in_data : Base → Bool
in_data (internal o) = ltb o internal_data_size
in_data external = false

abbrev pub uses_data : List Fragment → Bool
uses_data [] = false
uses_data (f ∷ fs) = in_data f.base

abbrev pub using_internal_data : Packet → Bool
using_internal_data p = uses_data p.frags

abbrev pub set_base : Base → List Fragment → List Fragment
set_base b [] = []
set_base b (f ∷ fs) = record f { base = b } ∷ fs

abbrev pub first_size : List Fragment → ℕ
first_size [] = 0
first_size (f ∷ fs) = size f

-- The first fragment's bytes move to a buffer of their own.
unfoldable pub unuse_internal_data : Packet → Packet
unuse_internal_data p =
    if using_internal_data p
    then record p { frags = set_base external p.frags; headroom = internal_data_size }
    else p

-- `copy_internal_fragment_to`: the copy starts at `_headroom` in the new `_data`, and faults when it
-- runs past its end.
unfoldable pub copy_internal_fragment : Packet → Packet → Option Packet
copy_internal_fragment old n =
    if using_internal_data old
    then (do
      guard (leb (old.headroom + first_size n.frags) internal_data_size)
      some (record n { frags = set_base (internal old.headroom) n.frags }))
    else some n

unfoldable pub copy : Packet → ℕ → Option Packet
unfolding allocate copy_internal_fragment
copy old nr = do
  n ← allocate nr
  guard (leb (nr_frags old) n.allocated)
  copy_internal_fragment old (record n {
    len = old.len;
    frags = old.frags;
    headroom = old.headroom;
    offload = old.offload;
    rss_hash = old.rss_hash;
  })

unfoldable pub allocate_if_needed : Packet → ℕ → Option Packet
unfolding copy
allocate_if_needed old extra =
    if leb (nr_frags old + extra) old.allocated
    then some old
    else copy old (max (nr_frags old + extra) (2 * nr_frags old))

-- `_frags[_nr_frags++] = f`.
unfoldable pub push_back : Fragment → Packet → Option Packet
push_back f p = do
  guard (ltb (nr_frags p) p.allocated)
  some (record p { frags = p.frags ++ f ∷ [] })

-- `copy_backward` by one place, then `_frags[0] = f` and `++_nr_frags`.
unfoldable pub push_front : Fragment → Packet → Option Packet
push_front f p = do guard (ltb (nr_frags p) p.allocated); some (record p { frags = f ∷ p.frags })

abbrev pub add_len : ℕ → Packet → Packet
add_len n p = record p { len = u32 (p.len + n) }
