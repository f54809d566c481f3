-- ===== src/Ip/Receive.antt =====
-- `ipv4::handle_received_packet` of src/network/ip.cc. The packet is its bytes, `reassembled` the flag
-- of its offload information. `none` is a failed assertion or a read out of bounds.
pub mod Steps
pub mod Kept
pub mod Datagram
pub mod Run
pub mod Delivers
pub mod EndToEnd
mod Tests
pub mod Drops
pub mod Atomic
use actor_network.Prelude.{
  Bool, List, Option, [], bit_and, bit_xor, drop, guard, if◌then◌else◌, leb, length, ltb, none, not,
  some, take, true, ℕ, ◌%◌, ◌&&◌, ◌*◌, ◌++◌, ◌+◌, ◌==◌, ◌>>=◌, ◌>>◌, ◌^◌, ◌||◌, ◌∷◌,
}
use actor_network.Arp.{Answer, learn, lookup}
use actor_network.Checksum.{fresh, get, sum}
use actor_network.Ip.{Frag, FragId, IpEnv, IpHdr, Ipv4, ip_packet_len_max, mf_of, offset_of}
use actor_network.Ip.Fragments.{
  aged, arm_if_idle, first_packet, frag_arm, frag_drop, frag_limit_mem, frag_merge, frag_of,
  get_assembled_packet, is_complete, opened_frag, put_frag, remove_id,
}
use actor_network.Ip.Hash.{assembled_hash_data, has_l4, toeplitz_hash}
use actor_network.Ip.Header.{read_ip}

unfoldable pub in_my_netmask : ℕ → Ipv4 → Bool
in_my_netmask a s = bit_and (bit_xor a s.host_address) s.netmask == 0

-- The header's checksum is not looked at, or it is right.
unfoldable pub csum_ok : IpEnv → Bool → List ℕ → Option Bool
csum_ok env reassembled p =
    let summed = sum (take 20 p) fresh >>= λ c. some (get c == 0) in
    if env.features.rx_csum_offload || reassembled then some true else summed

abbrev pub deliver : IpHdr → List ℕ → Ipv4 → Ipv4
deliver h payload s = record s {
  deliveries =
      s.deliveries
      ++ (record { proto = h.ip_proto; bytes = payload; source = h.src_ip; target = h.dst_ip }
          ∷ []);
}

abbrev pub id_of : IpHdr → FragId
id_of h = record {
  src_ip = h.src_ip;
  dst_ip = h.dst_ip;
  identification = h.id;
  protocol = h.ip_proto;
}

abbrev pub learn_sender : IpHdr → ℕ → Ipv4 → Ipv4
learn_sender h source s =
    if in_my_netmask h.src_ip s && not (h.src_ip == s.host_address)
    then record s { arp = learn source h.src_ip s.arp }
    else s

module _ (env : IpEnv) where
  -- A complete datagram goes up on this shard, or to the shard that its connection hashes to.
  unfoldable pub pass_up : IpHdr → ℕ → Frag → Ipv4 → Option Ipv4
  unfolding toeplitz_hash get_assembled_packet assembled_hash_data
  pass_up h source f s =
      let ip_data = first_packet f.ip_data.map in
      let to_cpu = do
        hash ← toeplitz_hash env.rss_key (assembled_hash_data env.be h ip_data)
        let cpu_id = env.hash2cpu hash in
            let elsewhere = get_assembled_packet env source env.hw_address f >>= λ pkt.
            some (record s { forwarded = s.forwarded ++ ((cpu_id, pkt) ∷ []) }) in
            if cpu_id == env.this_shard then some (deliver h ip_data s) else elsewhere
      in if has_l4 h.ip_proto then to_cpu else some s

  -- What follows the merge.
  unfoldable pub after_merge : IpHdr → ℕ → ℕ → Frag → Ipv4 → Option Ipv4
  unfolding is_complete pass_up frag_drop remove_id frag_arm
  after_merge h source now f s =
      let passed = do
        s' ← pass_up h source f s
        let s'' = frag_drop (id_of h) f.mem_size s' in
            some (record s'' { frags_age = remove_id (id_of h) s''.frags_age })
      in if is_complete f then passed else some (arm_if_idle s.frag_timer now s)

  -- A fragment.
  unfoldable pub handle_fragment : IpHdr → List ℕ → ℕ → ℕ → Ipv4 → Option Ipv4
  unfolding frag_limit_mem frag_of frag_merge after_merge
  handle_fragment h p source now s =
      let limited = frag_limit_mem s in
      let old = frag_of limited.frags (id_of h) in
      do
        (f, added_size) ← frag_merge env.impl_size h (offset_of h) p (opened_frag h now old)
        after_merge h source now f (record limited {
          frags = put_frag (id_of h) f limited.frags;
          frags_age = aged (id_of h) old limited.frags_age;
          frag_mem = (limited.frag_mem + added_size) % 2 ^ 32;
        })

  -- A datagram in one piece.
  abbrev pub handle_atomic : IpHdr → List ℕ → Ipv4 → Option Ipv4
  handle_atomic h p s =
      if has_l4 h.ip_proto
      then guard (leb (h.ihl * 4) (length p)) >> some (deliver h (drop (h.ihl * 4) p) s)
      else some s

  -- From the trimmed packet on.
  unfoldable pub handle_trimmed : IpHdr → List ℕ → ℕ → ℕ → Ipv4 → Option Ipv4
  unfolding in_my_netmask handle_fragment
  handle_trimmed h p source now s =
      let learnt = learn_sender h source s in
      if ltb ip_packet_len_max (offset_of h + length p)
      then some s
      else if env.filter h p source
      then some learnt
      else if not (h.dst_ip == s.host_address)
      then some learnt
      else if mf_of h || not (offset_of h == 0)
      then handle_fragment h p source now learnt
      else handle_atomic h p learnt

  -- With the header, if there is one.
  abbrev pub handle_header : Option IpHdr → Bool → List ℕ → ℕ → ℕ → Ipv4 → Option Ipv4
  handle_header none reassembled p source now s = some s
  handle_header (some h) reassembled p source now s = do
    ok ← csum_ok env reassembled p
    if not ok || ltb (length p) h.len then some s else handle_trimmed h (take h.len p) source now s

  unfoldable pub handle_received_packet : Bool → List ℕ → ℕ → ℕ → Ipv4 → Option Ipv4
  unfolding read_ip csum_ok handle_trimmed
  handle_received_packet reassembled p source now s =
      handle_header (read_ip env.be p) reassembled p source now s

-- `get_l2_dst_address`: the address of the host, or that of the gateway, is looked up.
unfoldable pub get_l2_dst_address : ℕ → Ipv4 → Answer × Ipv4
unfolding in_my_netmask
get_l2_dst_address to s =
    let dst = if in_my_netmask to s then to else s.gw_address in
    let (answer, a) = lookup dst s.arp in (answer, record s { arp = a })
