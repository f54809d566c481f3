-- ===== src/Ip/Send/Pieces.antt =====
-- What one call of the lambda `send_pkt` queues.
use actor_network.Prelude.{
  Bool-cases, List, Returns, Returns-bind, Returns-if, [], arith, drop, inl, inr, length, ltb, refl,
  some, true, ℕ, ◌%◌, ◌*◌, ◌++◌, ◌+◌, ◌/◌, ◌<◌, ◌==◌, ◌^◌, ◌∷◌, ◌≡◌, ◌≤◌,
}
use actor_network.Checksum.{fresh, get, sum}
use actor_network.Checksum.Sum.{sum_fresh}
use actor_network.Ip.{IpEnv, IpHdr, Ipv4, L3Packet, mf_of, offset_of}
use actor_network.Ip.Header.{read_ip, write_ip}
use actor_network.Ip.Header.RoundTrip.{
  FitsHdr, high_bits, high_field, low_bits, low_field, read_ip-write_ip,
}
use actor_network.Ip.Send.{Route, frag_field, send_pkt, sent_hdr, with_csum}
use actor_network.Tcp.Core.{BigEndian}

-- `hdr` is the header of the queued packet `q`, which carries `piece` from `offset` on, with `left`
-- bytes behind it.
pub record IsPiece (env : IpEnv) (r : Route) (host offset left : ℕ) (piece : List ℕ) (q : L3Packet)
    : Type 0 where
  pub hdr : IpHdr
  pub reads : read_ip env.be q.bytes ≡ some hdr
  pub carries : drop 20 q.bytes ≡ piece
  pub len_is : hdr.len ≡ length q.bytes
  pub fits : length q.bytes ≤ env.features.mtu
  pub offset_is : offset_of hdr ≡ offset
  pub mf_is : mf_of hdr ≡ ltb 0 left
  pub ihl_is : hdr.ihl ≡ 5
  pub id_is : hdr.id ≡ 0
  pub proto_is : hdr.ip_proto ≡ r.proto_num % 2 ^ 8
  pub source_is : hdr.src_ip ≡ host
  pub target_is : hdr.dst_ip ≡ r.to
  pub sent_to : q.to ≡ r.e_dst

-- The word of flag and offset, with a flag that is a bit.
field_fits : (m offset : ℕ) → m < 2 → offset < 2 ^ 16 → m * 2 ^ 13 + offset / 8 < 2 ^ 16
field_fits m offset h k = omega arith

field_offset :
    (m offset : ℕ)
    → m < 2
    → offset < 2 ^ 16
    → offset % 8 ≡ 0
    → (m * 2 ^ 13 + offset / 8) * 2 ^ 3 % 2 ^ 16 ≡ offset
field_offset m offset h k e = omega arith

field_mf : (m offset : ℕ) → m < 2 → offset < 2 ^ 16 → (m * 2 ^ 13 + offset / 8) / 2 ^ 13 % 2 ≡ m
field_mf m offset h k = omega arith

module _ (left offset : ℕ) (small : offset < 2 ^ 16) where
  frag_field_fits : frag_field true left offset < 2 ^ 16
  frag_field_fits = elim (Bool-cases (ltb 0 left)) [
    | inl e ↦ rw e (field_fits 1 offset (omega arith) small)
    | inr e ↦ rw e (field_fits 0 offset (omega arith) small)
  ]

  frag_field_offset : offset % 8 ≡ 0 → frag_field true left offset * 2 ^ 3 % 2 ^ 16 ≡ offset
  frag_field_offset h = elim (Bool-cases (ltb 0 left)) [
    | inl e ↦ rw e (field_offset 1 offset (omega arith) small h)
    | inr e ↦ rw e (field_offset 0 offset (omega arith) small h)
  ]

  frag_field_mf : (frag_field true left offset / 2 ^ 13 % 2 == 1) ≡ ltb 0 left
  frag_field_mf = elim (Bool-cases (ltb 0 left)) [
    | inl e ↦ rw (e, field_mf 1 offset (omega arith) small) refl
    | inr e ↦ rw (e, field_mf 0 offset (omega arith) small) refl
  ]

-- Storing the checksum changes that field only.
with_csum-read_ip :
    (be : BigEndian) (c : ℕ) (h : IpHdr) (rest : List ℕ)
    → FitsHdr h
    → read_ip be (with_csum c (write_ip be h) ++ rest)
      ≡ some (record h { csum = be.read16 (c % 2 ^ 8, c / 2 ^ 8) })
unfolding read_ip write_ip
with_csum-read_ip be c h rest f =
    rw
      (
        low_field be h.ihl h.ver f.ihl_fits,
        high_field be h.ihl h.ver f.ver_fits,
        low_bits be h.dscp h.ecn f.dscp_fits,
        high_bits be h.dscp h.ecn f.ecn_fits,
        be.read-write16 h.len f.len_fits,
        be.read-write16 h.id f.id_fits,
        be.read-write16 h.frag f.frag_fits,
        be.read-write32 h.src_ip f.src_fits,
        be.read-write32 h.dst_ip f.dst_fits,
      )
      refl

-- What is queued is one packet that is such a piece.
abbrev pub Queues : IpEnv → Route → List ℕ → ℕ → ℕ → Ipv4 → Ipv4 → Type 0
Queues env r pkt left offset s s' =
    (q : L3Packet) × (s' ≡ record s { packetq = s.packetq ++ (q ∷ []) })
    × IsPiece env r s.host_address offset left pkt q

module _ (env : IpEnv) (r : Route) (pkt : List ℕ) (left offset : ℕ) (s : Ipv4)
    (host_fits : s.host_address < 2 ^ 32) (to_fits : r.to < 2 ^ 32) (small : offset < 2 ^ 16)
    (fits : length pkt + 20 ≤ env.features.mtu) (mtu_fits : env.features.mtu < 2 ^ 16)
    (multiple : offset % 8 ≡ 0) where
  hdr-FitsHdr : FitsHdr (sent_hdr true r pkt left offset s)
  hdr-FitsHdr = record {
    ihl_fits = omega arith;
    ver_fits = omega arith;
    dscp_fits = omega arith;
    ecn_fits = omega arith;
    len_fits = omega arith;
    id_fits = omega arith;
    frag_fits = frag_field_fits left offset small;
    csum_fits = omega arith;
    src_fits = host_fits;
    dst_fits = to_fits;
  }

  sent-IsPiece :
      (c : ℕ) (q : L3Packet)
      → length q.bytes ≡ length pkt + 20
      → drop 20 q.bytes ≡ pkt
      → q.to ≡ r.e_dst
      → read_ip env.be q.bytes ≡ some (record (sent_hdr true r pkt left offset s) { csum = c })
      → IsPiece env r s.host_address offset left pkt q
  sent-IsPiece c q len_eq rest_eq to_eq read_eq = record {
    hdr = record (sent_hdr true r pkt left offset s) { csum = c };
    reads = read_eq;
    carries = rest_eq;
    len_is = omega arith;
    fits = omega arith;
    offset_is = frag_field_offset left offset small multiple;
    mf_is = frag_field_mf left offset small;
    ihl_is = refl;
    id_is = refl;
    proto_is = refl;
    source_is = refl;
    target_is = refl;
    sent_to = to_eq;
  }

  pub send_pkt-Queues :
      Returns (send_pkt env true r pkt left offset s) (Queues env r pkt left offset s)
  unfolding send_pkt write_ip
  send_pkt-Queues =
      Returns-if (Queues env r pkt left offset s) env.features.tx_csum_ip_offload _ _
        (λ e. (
          _,
          refl,
          sent-IsPiece 0 _ (omega arith) refl refl
              (read_ip-write_ip env.be (sent_hdr true r pkt left offset s) pkt hdr-FitsHdr),
        ))
        (λ e.
          Returns-bind (λ c. Unit) (Queues env r pkt left offset s)
            (sum (write_ip env.be (sent_hdr true r pkt left offset s)) fresh) _ (sum_fresh _)
            (λ c u. (
              _,
              refl,
              sent-IsPiece _ _ (omega arith) refl refl (
                  with_csum-read_ip env.be (get c) (sent_hdr true r pkt left offset s) pkt
                    hdr-FitsHdr),
            )))
