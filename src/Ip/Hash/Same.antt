-- ===== src/Ip/Hash/Same.antt =====
-- The packets of a connection hash alike, whole or put together from fragments.
use actor_network.Prelude.{
  List, ap, append_assoc, ap₂, arith, drop, drop-append, drop-length, false, inl, inr, leb, length,
  length-append, le→leb, refl, some, sym, take, true, ℕ, ◌++◌, ◌+◌, ◌∙◌, ◌≡◌, ◌≤◌, ◌⊎◌,
}
use actor_network.Ip.{IpHdr, mf_of, offset_of, tcp_num, udp_num}
use actor_network.Ip.Hash.{
  assembled_hash_data, bytes16, bytes32, connid_hash, forward, has_l4, l4_forward, toeplitz_hash,
}
use actor_network.Ip.Header.{read_ip, write_ip}
use actor_network.Ip.Header.RoundTrip.{FitsHdr, read_ip-write_ip}
use actor_network.Tcp.Core.{BigEndian}

leb-add : (a b n : ℕ) → leb (a + n) (a + b) ≡ leb n b
leb-add a b n = ground arith

-- The ports behind some bytes are found as they are without these.
l4_forward-append :
    (proto : ℕ) (front p : List ℕ)
    → l4_forward proto (front ++ p) (length front) ≡ l4_forward proto p 0
unfolding l4_forward
l4_forward-append proto front p =
    rw
      (
        length-append front p,
        leb-add (length front) (length p) 20,
        leb-add (length front) (length p) 8,
        drop-length front p,
      )
      refl

module _ (be : BigEndian) (h : IpHdr) (fits : FitsHdr h) where
  length-write_ip : length (write_ip be h) ≡ 20
  unfolding write_ip
  length-write_ip = refl

  addresses-write_ip :
      (rest : List ℕ)
      → take 8 (drop 12 (write_ip be h ++ rest)) ≡ bytes32 be h.src_ip ++ bytes32 be h.dst_ip
  unfolding write_ip
  addresses-write_ip rest = refl

  -- For a whole datagram, behind the bytes `front` of a frame, `forward` gives what is hashed when the
  -- same datagram has been put together from fragments.
  pub forward-assembled_hash_data :
      (front payload : List ℕ)
      → has_l4 h.ip_proto ≡ true
      → mf_of h ≡ false
      → offset_of h ≡ 0
      → forward be (front ++ (write_ip be h ++ payload)) (length front)
        ≡ some (assembled_hash_data be h payload)
  unfolding forward assembled_hash_data
  forward-assembled_hash_data front payload known mf offset =
      rw
        (
          header,
          ap (take 8) (drop-append 12 front (write_ip be h ++ payload))
              ∙ addresses-write_ip payload,
          known,
          mf,
          offset,
          ports,
        )
        refl
    where
      header : read_ip be (drop (length front) (front ++ (write_ip be h ++ payload))) ≡ some h
      header =
          ap (read_ip be) (drop-length front (write_ip be h ++ payload))
          ∙ read_ip-write_ip be h payload fits

      ports :
          l4_forward h.ip_proto (front ++ (write_ip be h ++ payload)) (length front + 20)
          ≡ l4_forward h.ip_proto payload 0
      ports =
          ap₂ (l4_forward h.ip_proto) (sym (append_assoc front (write_ip be h) payload))
            (sym (length-append front (write_ip be h) ∙ ap (◌+◌ (length front)) length-write_ip))
          ∙ l4_forward-append h.ip_proto (front ++ write_ip be h) payload

  -- A segment of TCP or datagram of UDP that carries the ports hashes as its connection does, where
  -- the peer is the source.
  pub assembled_hash_data-connid_hash :
      (key rest : List ℕ) (foreign_port local_port : ℕ)
      → (h.ip_proto ≡ tcp_num) × (16 ≤ length rest) ⊎ (h.ip_proto ≡ udp_num) × (4 ≤ length rest)
      → toeplitz_hash key
          (assembled_hash_data be h (bytes16 be foreign_port ++ (bytes16 be local_port ++ rest)))
        ≡ connid_hash be key h.src_ip h.dst_ip foreign_port local_port
  unfolding assembled_hash_data connid_hash l4_forward
  assembled_hash_data-connid_hash key rest foreign_port local_port (inl (e, long)) =
      let ports = bytes16 be foreign_port ++ (bytes16 be local_port ++ rest) in
      let there : leb (0 + 20) (length ports) ≡ true =
        le→leb (0 + 20) (length ports) (omega arith) in
      rw (e, there) refl
  assembled_hash_data-connid_hash key rest foreign_port local_port (inr (e, long)) =
      let ports = bytes16 be foreign_port ++ (bytes16 be local_port ++ rest) in
      let there : leb (0 + 8) (length ports) ≡ true = le→leb (0 + 8) (length ports) (omega arith) in
      rw (e, there) refl

-- For an unfragmented IPv4 packet whose header has no options, with at least 20 bytes of TCP or 8 bytes
-- of UDP from the ports on: the data hashed when the packet comes in a frame is the data hashed when
-- the same packet has been put together from fragments, and its hash is that of the connection, where
-- the sender is the peer.
pub forward-connid_hash :
    (be : BigEndian) (h : IpHdr) (key front rest : List ℕ) (foreign_port local_port : ℕ)
    → FitsHdr h
    → h.ihl ≡ 5
    → has_l4 h.ip_proto ≡ true
    → mf_of h ≡ false
    → offset_of h ≡ 0
    → (h.ip_proto ≡ tcp_num) × (16 ≤ length rest) ⊎ (h.ip_proto ≡ udp_num) × (4 ≤ length rest)
    → let payload = bytes16 be foreign_port ++ (bytes16 be local_port ++ rest) in
      (forward be (front ++ (write_ip be h ++ payload)) (length front)
        ≡ some (assembled_hash_data be h payload))
      × (toeplitz_hash key (assembled_hash_data be h payload)
          ≡ connid_hash be key h.src_ip h.dst_ip foreign_port local_port)
forward-connid_hash be h key front rest foreign_port local_port fits no_options known mf offset
      proto =
    (
      forward-assembled_hash_data be h fits front _ known mf offset,
      assembled_hash_data-connid_hash be h fits key rest foreign_port local_port proto,
    )
