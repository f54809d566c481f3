-- ===== src/Ip/Header.antt =====
-- `ip_hdr` of include/nil/actor/network/ip.hh: its 20 bytes, with `hton` and `ntoh` of its words. Of
-- two bit fields in a byte the first is the low one.
pub mod RoundTrip
use actor_network.Prelude.{List, Option, [], none, some, ℕ, ◌%◌, ◌*◌, ◌+◌, ◌/◌, ◌^◌, ◌∷◌}
use actor_network.Ip.{IpHdr}
use actor_network.Tcp.Core.{BigEndian}

module _ (be : BigEndian) where
  open be use {write16, read16, write32, read32}

  -- The bytes of `hton(h)`.
  unfoldable pub write_ip : IpHdr → List ℕ
  write_ip h =
      let (l0, l1) = write16 h.len in
      let (i0, i1) = write16 h.id in
      let (f0, f1) = write16 h.frag in
      let (c0, c1) = write16 h.csum in
      let (s0, s1, s2, s3) = write32 h.src_ip in
      let (d0, d1, d2, d3) = write32 h.dst_ip in
      (h.ihl % 2 ^ 4 + h.ver % 2 ^ 4 * 2 ^ 4)
      ∷ (h.dscp % 2 ^ 6 + h.ecn % 2 ^ 2 * 2 ^ 6)
      ∷ l0
      ∷ l1
      ∷ i0
      ∷ i1
      ∷ f0
      ∷ f1
      ∷ h.ttl
      ∷ h.ip_proto
      ∷ c0
      ∷ c1
      ∷ s0
      ∷ s1
      ∷ s2
      ∷ s3
      ∷ d0
      ∷ d1
      ∷ d2
      ∷ d3
      ∷ []

  -- `ntoh(*p.get_header<ip_hdr>(0))`, which needs the 20 bytes.
  unfoldable pub read_ip : List ℕ → Option IpHdr
  read_ip
        (v ∷ t ∷ l0 ∷ l1 ∷ i0 ∷ i1 ∷ f0 ∷ f1 ∷ ttl ∷ proto ∷ c0 ∷ c1 ∷ s0 ∷ s1 ∷ s2 ∷ s3 ∷ d0 ∷ d1
          ∷ d2 ∷ d3 ∷ rest) =
      some (record {
        ihl = v % 2 ^ 4;
        ver = v / 2 ^ 4;
        dscp = t % 2 ^ 6;
        ecn = t / 2 ^ 6;
        len = read16 (l0, l1);
        id = read16 (i0, i1);
        frag = read16 (f0, f1);
        ttl = ttl;
        ip_proto = proto;
        csum = read16 (c0, c1);
        src_ip = read32 (s0, s1, s2, s3);
        dst_ip = read32 (d0, d1, d2, d3);
      })
  read_ip _ = none
