-- ===== src/Ip/Header/RoundTrip.antt =====
-- Reading back a header that was written.
use actor_network.Prelude.{List, arith, refl, some, ℕ, ◌%◌, ◌*◌, ◌++◌, ◌+◌, ◌/◌, ◌<◌, ◌^◌, ◌≡◌}
use actor_network.Ip.{IpHdr}
use actor_network.Ip.Header.{read_ip, write_ip}
use actor_network.Tcp.Core.{BigEndian}

-- Every field fits its place.
pub record FitsHdr (h : IpHdr) : Type 0 where
  pub ihl_fits : h.ihl < 2 ^ 4
  pub ver_fits : h.ver < 2 ^ 4
  pub dscp_fits : h.dscp < 2 ^ 6
  pub ecn_fits : h.ecn < 2 ^ 2
  pub len_fits : h.len < 2 ^ 16
  pub id_fits : h.id < 2 ^ 16
  pub frag_fits : h.frag < 2 ^ 16
  pub csum_fits : h.csum < 2 ^ 16
  pub src_fits : h.src_ip < 2 ^ 32
  pub dst_fits : h.dst_ip < 2 ^ 32

module _ (be : BigEndian) where
  open be use {read16, read32, write16, read-write16, read-write32}

  pub low_field : (a b : ℕ) → a < 2 ^ 4 → (a % 2 ^ 4 + b % 2 ^ 4 * 2 ^ 4) % 2 ^ 4 ≡ a
  low_field a b h = omega arith

  pub high_field : (a b : ℕ) → b < 2 ^ 4 → (a % 2 ^ 4 + b % 2 ^ 4 * 2 ^ 4) / 2 ^ 4 ≡ b
  high_field a b h = omega arith

  pub low_bits : (a b : ℕ) → a < 2 ^ 6 → (a % 2 ^ 6 + b % 2 ^ 2 * 2 ^ 6) % 2 ^ 6 ≡ a
  low_bits a b h = omega arith

  pub high_bits : (a b : ℕ) → b < 2 ^ 2 → (a % 2 ^ 6 + b % 2 ^ 2 * 2 ^ 6) / 2 ^ 6 ≡ b
  high_bits a b h = omega arith

  -- A header with every field in range, written in front of any bytes, is read back as it was.
  pub read_ip-write_ip :
      (h : IpHdr) (rest : List ℕ) → FitsHdr h → read_ip be (write_ip be h ++ rest) ≡ some h
  unfolding read_ip write_ip
  read_ip-write_ip h rest f =
      rw
        (
          low_field h.ihl h.ver f.ihl_fits,
          high_field h.ihl h.ver f.ver_fits,
          low_bits h.dscp h.ecn f.dscp_fits,
          high_bits h.dscp h.ecn f.ecn_fits,
          read-write16 h.len f.len_fits,
          read-write16 h.id f.id_fits,
          read-write16 h.frag f.frag_fits,
          read-write16 h.csum f.csum_fits,
          read-write32 h.src_ip f.src_fits,
          read-write32 h.dst_ip f.dst_fits,
        )
        refl
