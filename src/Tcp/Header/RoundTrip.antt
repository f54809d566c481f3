-- ===== src/Tcp/Header/RoundTrip.antt =====
-- A header that is written is read back.
use actor_network.Prelude.{List, some, ℕ, ◌++◌, ◌<◌, ◌^◌, ◌≡◌}
use actor_network.Tcp.Core.{BigEndian}
use actor_network.Tcp.Header.{TcpHdr, read, write}
use actor_network.Tcp.Header.Bits.{flags_byte-Reads, offset_byte_lem}

-- Every field fits its width.
pub record IsHeader (h : TcpHdr) : Type 0 where
  pub src_port_fits : h.src_port < 2 ^ 16
  pub dst_port_fits : h.dst_port < 2 ^ 16
  pub seq_fits : h.seq.raw < 2 ^ 32
  pub ack_fits : h.ack.raw < 2 ^ 32
  pub rsvd1_fits : h.rsvd1 < 16
  pub data_offset_fits : h.data_offset < 16
  pub rsvd2_fits : h.rsvd2 < 4
  pub window_fits : h.window < 2 ^ 16
  pub checksum_fits : h.checksum < 2 ^ 16
  pub urgent_fits : h.urgent < 2 ^ 16

module _ (be : BigEndian) where
  open be use {write16, read16, read-write16, write32, read32, read-write32}

  word16 : (n : ℕ) → n < 2 ^ 16 → read16 ((write16 n).0, (write16 n).1) ≡ n
  word16 n h = read-write16 n h

  word32 :
      (n : ℕ) → n < 2 ^ 32 → read32 ((write32 n).0, (write32 n).1, (write32 n).2, (write32 n).3) ≡ n
  word32 n h = read-write32 n h

  -- Reading what `write` wrote gives every field back, when each fits its width, whatever follows
  -- the header.
  pub read-write : (h : TcpHdr) (rest : List ℕ) → IsHeader h → read be (write be h ++ rest) ≡ some h
  unfolding read write
  read-write h rest v =
      let o = offset_byte_lem h.rsvd1 h.data_offset v.rsvd1_fits v.data_offset_fits in
      let f =
        flags_byte-Reads h.f_fin h.f_syn h.f_rst h.f_psh h.f_ack h.f_urg h.rsvd2 v.rsvd2_fits in
      simp (
        word16 h.src_port v.src_port_fits,
        word16 h.dst_port v.dst_port_fits,
        word32 h.seq.raw v.seq_fits,
        word32 h.ack.raw v.ack_fits,
        o.0,
        o.1,
        f.reads_fin,
        f.reads_syn,
        f.reads_rst,
        f.reads_psh,
        f.reads_ack,
        f.reads_urg,
        f.reads_rsvd2,
        word16 h.window v.window_fits,
        word16 h.checksum v.checksum_fits,
        word16 h.urgent v.urgent_fits,
      )
