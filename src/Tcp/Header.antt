-- ===== src/Tcp/Header.antt =====
-- `tcp_hdr` of include/nil/actor/network/tcp.hh: `read` and `write`. A one-bit field is a Boolean.
pub mod Bits
pub mod RoundTrip
use actor_network.Prelude.{
  Bool, List, Option, [], bit_and, bit_or, false, none, some, true, ℕ, ◌%◌, ◌*◌, ◌/◌, ◌==◌, ◌^◌,
  ◌∷◌,
}
use actor_network.Tcp.Core.{BigEndian}
use actor_network.Tcp.Seq.{TcpSeq}

pub record TcpHdr : Type 0 where
  pub src_port : ℕ
  pub dst_port : ℕ
  pub seq : TcpSeq
  pub ack : TcpSeq
  pub rsvd1 : ℕ
  pub data_offset : ℕ
  pub f_fin : Bool
  pub f_syn : Bool
  pub f_rst : Bool
  pub f_psh : Bool
  pub f_ack : Bool
  pub f_urg : Bool
  pub rsvd2 : ℕ
  pub window : ℕ
  pub checksum : ℕ
  pub urgent : ℕ

abbrev pub bit_of : Bool → ℕ
bit_of true = 1
bit_of false = 0

-- `(p >> k) & 1`, as a flag.
abbrev pub flag : ℕ → ℕ → Bool
flag p k = bit_and (p / 2 ^ k) 1 == 1

-- The two bytes that hold bit fields.
pub offset_byte : ℕ → ℕ → ℕ
offset_byte rsvd1 data_offset = bit_or rsvd1 (data_offset * 2 ^ 4) % 2 ^ 8

pub flags_byte : Bool → Bool → Bool → Bool → Bool → Bool → ℕ → ℕ
flags_byte fin syn rst psh ack urg rsvd2 =
    bit_or
      (bit_or
        (bit_or
          (bit_or (bit_or (bit_or (bit_of fin * 2 ^ 0) (bit_of syn * 2 ^ 1)) (bit_of rst * 2 ^ 2))
            (bit_of psh * 2 ^ 3))
          (bit_of ack * 2 ^ 4))
        (bit_of urg * 2 ^ 5))
      (rsvd2 * 2 ^ 6)
    % 2 ^ 8

module _ (be : BigEndian) where
  open be use {write16, read16, write32, read32}

  -- `write`, into the 20 bytes of the header.
  pub write : TcpHdr → List ℕ
  unfolding offset_byte flags_byte
  write h =
      let (s0, s1) = write16 h.src_port in
      let (d0, d1) = write16 h.dst_port in
      let (q0, q1, q2, q3) = write32 h.seq.raw in
      let (a0, a1, a2, a3) = write32 h.ack.raw in
      let (w0, w1) = write16 h.window in
      let (c0, c1) = write16 h.checksum in
      let (u0, u1) = write16 h.urgent in
      s0
      ∷ s1
      ∷ d0
      ∷ d1
      ∷ q0
      ∷ q1
      ∷ q2
      ∷ q3
      ∷ a0
      ∷ a1
      ∷ a2
      ∷ a3
      ∷ offset_byte h.rsvd1 h.data_offset
      ∷ flags_byte h.f_fin h.f_syn h.f_rst h.f_psh h.f_ack h.f_urg h.rsvd2
      ∷ w0
      ∷ w1
      ∷ c0
      ∷ c1
      ∷ u0
      ∷ u1
      ∷ []

  -- `read`, which needs the 20 bytes.
  unfoldable pub read : List ℕ → Option TcpHdr
  read
        (s0 ∷ s1 ∷ d0 ∷ d1 ∷ q0 ∷ q1 ∷ q2 ∷ q3 ∷ a0 ∷ a1 ∷ a2 ∷ a3 ∷ o ∷ f ∷ w0 ∷ w1 ∷ c0 ∷ c1 ∷ u0
          ∷ u1 ∷ rest) =
      some (record {
        src_port = read16 (s0, s1);
        dst_port = read16 (d0, d1);
        seq = record { raw = read32 (q0, q1, q2, q3) };
        ack = record { raw = read32 (a0, a1, a2, a3) };
        rsvd1 = bit_and o 15;
        data_offset = o / 2 ^ 4;
        f_fin = flag f 0;
        f_syn = flag f 1;
        f_rst = flag f 2;
        f_psh = flag f 3;
        f_ack = flag f 4;
        f_urg = flag f 5;
        rsvd2 = bit_and (f / 2 ^ 6) 3;
        window = read16 (w0, w1);
        checksum = read16 (c0, c1);
        urgent = read16 (u0, u1);
      })
  read _ = none
