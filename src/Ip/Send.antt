-- ===== src/Ip/Send.antt =====
-- `ipv4::send` and `needs_frag` of src/network/ip.cc. `none` is a failed assertion, a read out of
-- bounds, or a loop that does not end.
pub mod Pieces
pub mod Loop
use actor_network.Prelude.{
  Bool, List, Option, [], drop, false, guard, if◌then◌else◌, leb, length, ltb, min, none, not, some,
  suc, take, true, zero, ℕ, ◌%◌, ◌&&◌, ◌++◌, ◌+◌, ◌-◌, ◌/◌, ◌==◌, ◌>>=◌, ◌>>◌, ◌^◌, ◌||◌, ◌∷◌,
}
use actor_network.Checksum.{fresh, get, sum}
use actor_network.Ip.{IpEnv, IpFeatures, IpHdr, Ipv4, ipv4_hdr_len_min, tcp_num, udp_num}
use actor_network.Ip.Header.{write_ip}

unfoldable pub needs_frag : List ℕ → ℕ → IpFeatures → Bool
needs_frag p prot_num hw =
    if leb (length p + ipv4_hdr_len_min) hw.mtu
    then false
    else not (prot_num == tcp_num && hw.tx_tso || prot_num == udp_num && hw.tx_ufo)

-- Where a packet goes: `to`, `proto_num` and `e_dst`.
pub record Route : Type 0 where
  pub to : ℕ
  pub proto_num : ℕ
  pub e_dst : ℕ

-- `iph->frag`: the flag MF, `or`ed with the offset in units of 8 octets, which takes the 13 bits below.
abbrev pub frag_field : Bool → ℕ → ℕ → ℕ
frag_field frag remaining offset =
    if frag then (if ltb 0 remaining then 2 ^ 13 else 0) + offset / 8 else 0

abbrev pub sent_hdr : Bool → Route → List ℕ → ℕ → ℕ → Ipv4 → IpHdr
sent_hdr frag r pkt remaining offset s = record {
  ihl = 5;
  ver = 4;
  dscp = 0;
  ecn = 0;
  len = (length pkt + ipv4_hdr_len_min) % 2 ^ 16;
  id = 0;
  frag = frag_field frag remaining offset;
  ttl = 64;
  ip_proto = r.proto_num % 2 ^ 8;
  csum = 0;
  src_ip = s.host_address;
  dst_ip = r.to;
}

-- The header with the checksum stored, in the order of the machine.
abbrev pub with_csum : ℕ → List ℕ → List ℕ
with_csum c bytes = take 10 bytes ++ ((c % 2 ^ 8) ∷ (c / 2 ^ 8) ∷ drop 12 bytes)

module _ (env : IpEnv) where
  abbrev pub queue_pkt : Route → List ℕ → List ℕ → Ipv4 → Ipv4
  queue_pkt r iph pkt s = record s {
    packetq =
        s.packetq
        ++ (record {
          to = r.e_dst;
          bytes = iph ++ pkt;
          needs_ip_csum = env.features.tx_csum_ip_offload;
        }
            ∷ []);
  }

  -- The lambda `send_pkt`.
  unfoldable pub send_pkt : Bool → Route → List ℕ → ℕ → ℕ → Ipv4 → Option Ipv4
  unfolding write_ip
  send_pkt frag r pkt remaining offset s =
      let iph = write_ip env.be (sent_hdr frag r pkt remaining offset s) in
      let summed = sum iph fresh >>= λ c. some (queue_pkt r (with_csum (get c) iph) pkt s) in
      if env.features.tx_csum_ip_offload then some (queue_pkt r iph pkt s) else summed

  -- `p.share(offset, n)`.
  abbrev pub shared : ℕ → ℕ → List ℕ → Option (List ℕ)
  shared offset n p = guard (leb (offset + n) (length p)) >> some (take n (drop offset p))

  -- `uint16_t(mtu - ipv4_hdr_len_min)`.
  abbrev pub room : ℕ
  room = (env.features.mtu + 2 ^ 16 - ipv4_hdr_len_min) % 2 ^ 16

  -- The loop, on fuel.
  unfoldable pub send_loop : ℕ → Route → List ℕ → ℕ → ℕ → Ipv4 → Option Ipv4
  unfolding send_pkt
  send_loop zero r p remaining offset s = if remaining == 0 then some s else none
  send_loop (suc fuel) r p remaining offset s =
      let can_send = min room remaining in
      let left = remaining - can_send in
      let further = do
        pkt ← shared offset can_send p
        s' ← send_pkt true r pkt left offset s
        send_loop fuel r p left ((offset + can_send) % 2 ^ 16) s'
      in if remaining == 0 then some s else further

  -- The fuel is one turn for each byte; a turn that sends nothing would be followed by the same turn.
  unfoldable pub send : Route → List ℕ → Ipv4 → Option Ipv4
  unfolding needs_frag send_pkt send_loop
  send r p s =
      let remaining = length p % 2 ^ 16 in
      let pieces = send_loop remaining r p remaining 0 s in
      let whole = send_pkt false r p 0 0 s in
      if needs_frag p r.proto_num env.features then pieces else whole
