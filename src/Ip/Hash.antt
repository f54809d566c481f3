-- ===== src/Ip/Hash.antt =====
-- Choosing a shard: `toeplitz_hash` of include/nil/actor/network/toeplitz.hh, `ipv4::forward` of
-- src/network/ip.cc with the `forward` of each protocol above it (tcp.hh, src/network/udp.cc), and
-- `l4connid::hash` of include/nil/actor/network/ip.hh. A `forward_hash` is the bytes pushed into it,
-- at most 12 of the 64 that it has room for; a word is pushed in the order in which it lies in memory.
pub mod Same
use actor_network.Prelude.{
  Bool, List, Option, [], bit_xor, drop, if◌then◌else◌, leb, length, none, not, some, suc, take,
  zero, ℕ, ◌%◌, ◌&&◌, ◌*◌, ◌++◌, ◌+◌, ◌/◌, ◌==◌, ◌>>=◌, ◌^◌, ◌||◌, ◌∷◌,
}
use actor_network.Ip.{IpHdr, icmp_num, ipv4_hdr_len_min, mf_of, offset_of, tcp_num, udp_num}
use actor_network.Ip.Header.{read_ip}
use actor_network.Tcp.Core.{BigEndian}

-- The bits of a byte, from the top one down: bit `b` is `x & (1 << b)`.
abbrev pub bit_at : ℕ → ℕ → Bool
bit_at x b = x / 2 ^ b % 2 == 1

-- The inner loop, with `n` bits to go, at the byte `d` of the data and the byte `k` of the key; where
-- the key has no such byte, `k` is 0 and no bit of it is set.
unfoldable pub hash_bits : ℕ → ℕ → ℕ → ℕ × ℕ → ℕ × ℕ
hash_bits zero d k (hash, v) = (hash, v)
hash_bits (suc n) d k (hash, v) =
    hash_bits n d k
      (if bit_at d n then bit_xor hash v else hash, v * 2 % 2 ^ 32 + (if bit_at k n then 1 else 0))

-- The outer loop, where `key` is what `key[i + 4]` and the places behind it hold.
unfoldable pub hash_bytes : List ℕ → List ℕ → ℕ × ℕ → ℕ
unfolding hash_bits
hash_bytes [] key st = st.0
hash_bytes (d ∷ ds) [] st = hash_bytes ds [] (hash_bits 8 d 0 st)
hash_bytes (d ∷ ds) (k ∷ ks) st = hash_bytes ds ks (hash_bits 8 d k st)

-- A key of fewer than four bytes is read out of bounds.
unfoldable pub toeplitz_hash : List ℕ → List ℕ → Option ℕ
unfolding hash_bytes
toeplitz_hash (k0 ∷ k1 ∷ k2 ∷ k3 ∷ key) input =
    some (hash_bytes input key (0, k0 * 2 ^ 24 + k1 * 2 ^ 16 + k2 * 2 ^ 8 + k3))
toeplitz_hash _ input = none

-- `_l4[proto]` is set.
abbrev pub has_l4 : ℕ → Bool
has_l4 proto = proto == tcp_num || proto == icmp_num || proto == udp_num

-- What `l4->forward` pushes: the ports, if the header is there whole (20 bytes of TCP, 8 of UDP).
unfoldable pub l4_forward : ℕ → List ℕ → ℕ → List ℕ
l4_forward proto p off =
    if proto == tcp_num && leb (off + 20) (length p)
    then take 4 (drop off p)
    else if proto == udp_num && leb (off + 8) (length p)
    then take 4 (drop off p)
    else []

module _ (be : BigEndian) where
  open be use {write16, write32}

  abbrev pub bytes16 : ℕ → List ℕ
  bytes16 n = let (a, b) = write16 n in a ∷ b ∷ []

  abbrev pub bytes32 : ℕ → List ℕ
  bytes32 n = let (a, b, c, d) = write32 n in a ∷ b ∷ c ∷ d ∷ []

  -- `forward`: what it pushes for the header at `off`, which has to be there. The addresses are
  -- pushed as they lie in the packet.
  unfoldable pub forward : List ℕ → ℕ → Option (List ℕ)
  unfolding read_ip l4_forward
  forward p off = do
    h ← read_ip be (drop off p)
    let addresses = take 8 (drop (off + 12) p) in
        some (
          addresses
          ++ (if has_l4 h.ip_proto && (not (mf_of h) && offset_of h == 0)
              then l4_forward h.ip_proto p (off + ipv4_hdr_len_min)
              else []))

  -- What `handle_received_packet` pushes for a datagram put together from fragments.
  unfoldable pub assembled_hash_data : IpHdr → List ℕ → List ℕ
  unfolding l4_forward
  assembled_hash_data h ip_data =
      bytes32 h.src_ip ++ (bytes32 h.dst_ip ++ l4_forward h.ip_proto ip_data 0)

  -- `l4connid::hash`.
  unfoldable pub connid_hash : List ℕ → ℕ → ℕ → ℕ → ℕ → Option ℕ
  unfolding toeplitz_hash
  connid_hash rss_key foreign_ip local_ip foreign_port local_port =
      toeplitz_hash rss_key
        (bytes32 foreign_ip ++ (bytes32 local_ip ++ (bytes16 foreign_port ++ bytes16 local_port)))
