-- ===== src/Ip/Receive/Atomic.antt =====
-- A datagram in one piece, at `handle_received_packet`.
use actor_network.Prelude.{
  ==_iff, Bool-cases, List, Returns, [], ap, append_assoc, arith, false, inl, inr, leb, length,
  length-append, le→leb, ltb, not, refl, some, sym, take, take-append_left, take_all, true, ℕ, ◌&&◌,
  ◌*◌, ◌++◌, ◌+◌, ◌==◌, ◌||◌, ◌∙◌, ◌∷◌, ◌≡◌,
}
use actor_network.Ip.{IpEnv, IpHdr, Ipv4, ip_packet_len_max, mf_of, offset_of}
use actor_network.Ip.Hash.{has_l4}
use actor_network.Ip.Header.{read_ip, write_ip}
use actor_network.Ip.Header.RoundTrip.{FitsHdr, read_ip-write_ip}
use actor_network.Ip.Receive.{
  csum_ok, handle_atomic, handle_received_packet, handle_trimmed, in_my_netmask, learn_sender,
}
use actor_network.Ip.Receive.Datagram.{datagram}

-- A packet that starts with the header `h` and has `payload` and perhaps more behind it. It is for this
-- host and not fragmented, the filter lets it through, and its length says where the payload ends.
pub record IsForHost (env : IpEnv) (h : IpHdr) (payload : List ℕ) (source : ℕ) (s : Ipv4)
    : Type 0 where
  pub fits : FitsHdr h
  pub len_is : h.len ≡ 20 + length payload
  pub not_fragment : h.frag ≡ 0
  pub target_is : h.dst_ip ≡ s.host_address
  pub let_through : env.filter h (write_ip env.be h ++ payload) source ≡ false
  pub known : has_l4 h.ip_proto ≡ true

module _ (env : IpEnv) (h : IpHdr) (payload : List ℕ) (source : ℕ) (s : Ipv4)
    (v : IsForHost env h payload source s) where
  abbrev trimmed : List ℕ
  trimmed = write_ip env.be h ++ payload

  length-trimmed : length trimmed ≡ h.len
  unfolding write_ip
  length-trimmed = omega (arith, v.len_is)

  take-trimmed : (junk : List ℕ) → take h.len (trimmed ++ junk) ≡ trimmed
  take-trimmed junk =
      ap (λ n. take n (trimmed ++ junk)) (sym length-trimmed)
      ∙ take-append_left (length trimmed) trimmed junk (omega arith)
      ∙ take_all trimmed

  not_fragmented : (mf_of h || not (offset_of h == 0)) ≡ false
  not_fragmented = rw v.not_fragment refl

  not_long : ltb ip_packet_len_max (offset_of h + length trimmed) ≡ false
  not_long = ground (arith, v.not_fragment, length-trimmed, v.fits.len_fits)

  for_host : (h.dst_ip == s.host_address) ≡ true
  for_host = (==_iff h.dst_ip s.host_address).1 v.target_is

  trimmed-atomic :
      (now : ℕ)
      → handle_trimmed env h trimmed source now s
        ≡ handle_atomic env h trimmed (learn_sender h source s)
  unfolding handle_trimmed
  trimmed-atomic now = rw (not_long, v.let_through, for_host, not_fragmented) refl

  whole-atomic :
      (junk : List ℕ) (now : ℕ)
      → env.features.rx_csum_offload ≡ true
      → handle_received_packet env false (trimmed ++ junk) source now s
        ≡ handle_atomic env h trimmed (learn_sender h source s)
  unfolding handle_received_packet csum_ok
  whole-atomic junk now off =
      let header : read_ip env.be (trimmed ++ junk) ≡ some h =
        ap (read_ip env.be) (append_assoc (write_ip env.be h) payload junk)
        ∙ read_ip-write_ip env.be h (payload ++ junk) v.fits in
      let enough : ltb (length (trimmed ++ junk)) h.len ≡ false =
        ground (arith, length-append trimmed junk, length-trimmed) in
      rw (header, off, enough, take-trimmed junk) (trimmed-atomic now)

learn_sender_deliveries :
    (h : IpHdr) (source : ℕ) (s : Ipv4) → (learn_sender h source s).deliveries ≡ s.deliveries
learn_sender_deliveries h source s =
    elim (Bool-cases (in_my_netmask h.src_ip s && not (h.src_ip == s.host_address))) [
      | inl e ↦ rw e refl
      | inr e ↦ rw e refl
    ]

-- A datagram in one piece for this host, with a header of 20 bytes, is delivered: its payload, without
-- what follows it in the frame, goes to its protocol. The device has checked the checksum.
pub handle_received_packet-datagram :
    (env : IpEnv) (h : IpHdr) (payload junk : List ℕ) (source now : ℕ) (s : Ipv4)
    → IsForHost env h payload source s
    → env.features.rx_csum_offload ≡ true
    → h.ihl ≡ 5
    → Returns
        (handle_received_packet env false ((write_ip env.be h ++ payload) ++ junk) source now s)
        (λ s'. s'.deliveries ≡ s.deliveries ++ (datagram h payload ∷ []))
unfolding write_ip
handle_received_packet-datagram env h payload junk source now s v off ihl =
    let inside : leb (h.ihl * 4) (length (trimmed env h payload source s v)) ≡ true =
      le→leb (h.ihl * 4) (length (trimmed env h payload source s v)) (omega arith) in
    rw (whole-atomic env h payload source s v junk now off, v.known, inside, ihl)
      (ap (λ l. l ++ (datagram h payload ∷ [])) (learn_sender_deliveries h source s))
