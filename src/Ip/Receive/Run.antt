-- ===== src/Ip/Receive/Run.antt =====
-- The fragments of a datagram at `handle_received_packet`, one after the other.
use actor_network.Prelude.{
  ==_iff, Bool-cases, List, Returns, Returns_map, [], ap, arith, false, inl, inr, length, ltb, not,
  refl, some, subst, sym, take, take_all, true, ℕ, ◌&&◌, ◌++◌, ◌+◌, ◌<◌, ◌==◌, ◌||◌, ◌∙◌, ◌∷◌, ◌≡◌,
  ◌≤◌, ◌⊎◌,
}
use actor_network.Arp.{Arp}
use actor_network.Ip.{
  Delivery, Frag, FragId, IpEnv, IpHdr, Ipv4, frag_high_thresh, ip_packet_len_max, mf_of, offset_of,
}
use actor_network.Ip.Fragments.{frag_of}
use actor_network.Ip.Fragments.Reassembly.{IsAdded, IsFragmentOf, IsReassembling}
use actor_network.Ip.Hash.{has_l4}
use actor_network.Ip.Header.{read_ip}
use actor_network.Ip.Receive.{
  csum_ok, handle_fragment, handle_received_packet, handle_trimmed, id_of, in_my_netmask,
  learn_sender,
}
use actor_network.Ip.Receive.Datagram.{IsHandled, datagram, handle_fragment-IsHandled}
use actor_network.Merger.Segments.{Covers, cut}

-- A fragment of the datagram `id` that is for the host and that the handler has no reason to drop.
pub record IsIncoming (env : IpEnv) (stream : ℕ → ℕ) (len : ℕ) (id : FragId) (host source : ℕ)
    (p : List ℕ) : Type 0 where
  pub hdr : IpHdr
  pub reads : read_ip env.be p ≡ some hdr
  pub fragment : IsFragmentOf stream len hdr p
  pub part : (mf_of hdr || not (offset_of hdr == 0)) ≡ true
  pub id_is : id_of hdr ≡ id
  pub len_is : hdr.len ≡ length p
  pub short : offset_of hdr + length p ≤ ip_packet_len_max
  pub let_through : env.filter hdr p source ≡ false
  pub target_is : hdr.dst_ip ≡ host
  pub known : has_l4 hdr.ip_proto ≡ true

-- Handling the packets one by one returns each time, as long as the memory is within its limit, and
-- the last state has the property.
abbrev pub Runs : IpEnv → ℕ → ℕ → List (List ℕ) → Ipv4 → (Ipv4 → Type 0) → Type 0
Runs env source now [] s P = P s
Runs env source now (p ∷ ps) s P =
    s.frag_mem ≤ frag_high_thresh
    → Returns (handle_received_packet env false p source now s) (λ s'. Runs env source now ps s' P)

learnt_is :
    (h : IpHdr) (source : ℕ) (s : Ipv4)
    → (a : Arp) × (learn_sender h source s ≡ record s { arp = a })
learnt_is h source s =
    elim (Bool-cases (in_my_netmask h.src_ip s && not (h.src_ip == s.host_address))) [
      | inl e ↦ rw e (_, refl)
      | inr e ↦ rw e (_, refl)
    ]

abbrev pub AllIncoming : IpEnv → (ℕ → ℕ) → ℕ → FragId → ℕ → ℕ → List (List ℕ) → Type 0
AllIncoming env stream len id source to [] = Unit
AllIncoming env stream len id source to (p ∷ ps) =
    IsIncoming env stream len id to source p × AllIncoming env stream len id source to ps

-- The delivery of a datagram.
abbrev pub delivery_of : FragId → List ℕ → Delivery
delivery_of id payload = record {
  proto = id.protocol;
  bytes = payload;
  source = id.src_ip;
  target = id.dst_ip;
}

-- What becomes of a fragment, at the entry of its datagram `id`.
abbrev pub Handles : (ℕ → ℕ) → ℕ → FragId → Ipv4 → IpHdr → List ℕ → Ipv4 → Type 0
Handles stream len id s h p s' =
    (frag : Frag) × IsAdded stream len h p (frag_of s.frags id) frag
    × (s'.host_address ≡ s.host_address)
    × ((((x : ℕ) → x < len → Covers x frag.ip_data.map)
          × (s'.deliveries ≡ s.deliveries ++ (datagram h (cut stream 0 len) ∷ [])))
        ⊎ (¬ ((x : ℕ) → x < len → Covers x frag.ip_data.map)
            × (s'.deliveries ≡ s.deliveries)
            × (frag_of s'.frags id ≡ frag)))

module _ (env : IpEnv) (source now : ℕ) where
  pub Runs_map :
      (ps : List (List ℕ)) (s : Ipv4) (P Q : Ipv4 → Type 0)
      → Runs env source now ps s P
      → ((t : Ipv4) → P t → Q t)
      → Runs env source now ps s Q
  Runs_map [] s P Q r g = g s r
  Runs_map (p ∷ ps) s P Q r g = λ low.
      Returns_map _ _ (handle_received_packet env false p source now s) (r low)
        (λ t u. Runs_map ps t P Q u g)

  pub Runs-append :
      (ps qs : List (List ℕ)) (s : Ipv4) (P : Ipv4 → Type 0)
      → Runs env source now ps s (λ t. Runs env source now qs t P)
      → Runs env source now (ps ++ qs) s P
  Runs-append [] qs s P r = r
  Runs-append (p ∷ ps) qs s P r = λ low.
      Returns_map _ _ (handle_received_packet env false p source now s) (r low)
        (λ t u. Runs-append ps qs t P u)

module _ (env : IpEnv) (key : 4 ≤ length env.rss_key)
    (local : (hash : ℕ) → env.hash2cpu hash ≡ env.this_shard)
    (checked : env.features.rx_csum_offload ≡ true) (stream : ℕ → ℕ) (len : ℕ) (id : FragId)
    (source now : ℕ) where
  -- One such packet is handled as a fragment, with what has been learnt of its sender.
  incoming-fragment :
      (s : Ipv4) (p : List ℕ) (v : IsIncoming env stream len id s.host_address source p)
      → handle_received_packet env false p source now s
        ≡ handle_fragment env v.hdr p source now (learn_sender v.hdr source s)
  unfolding handle_received_packet handle_trimmed csum_ok
  incoming-fragment s p v =
      let long_enough : ltb (length p) v.hdr.len ≡ false = ground (arith, v.len_is) in
      let all : take v.hdr.len p ≡ p = ap (λ n. take n p) v.len_is ∙ take_all p in
      let not_long : ltb ip_packet_len_max (offset_of v.hdr + length p) ≡ false =
        ground (arith, v.short) in
      let for_host : (v.hdr.dst_ip == s.host_address) ≡ true =
        (==_iff v.hdr.dst_ip s.host_address).1 v.target_is in
      rw (v.reads, checked, long_enough, all, not_long, v.let_through, for_host, v.part) refl

  fragment-Handles :
      (s : Ipv4) (h : IpHdr) (p : List ℕ)
      → s.frag_mem ≤ frag_high_thresh
      → has_l4 h.ip_proto ≡ true
      → IsFragmentOf stream len h p
      → IsReassembling stream len (frag_of s.frags id)
      → id_of h ≡ id
      → Returns
          (handle_fragment env h p source now (learn_sender h source s))
          (Handles stream len id s h p)
  fragment-Handles s h p low known v w e =
      let (a, l) = learnt_is h source s in
      rw l (
        Returns_map (IsHandled stream len h p (record s { arp = a })) _ _
          (handle_fragment-IsHandled env key local stream len h p source now (record s { arp = a })
            low known v (subst (λ i. IsReassembling stream len (frag_of s.frags i)) (sym e) w))
          (λ s' t.
            subst (λ i. Handles stream len i s h p s') e
              (
                t.frag,
                t.added,
                t.host_is,
                elim t.outcome [ inl (c, d, g) ↦ inl (c, d) | inr (c, d, g) ↦ inr (c, d, g) ],
              )))

  -- So at the handler.
  pub handled :
      (s : Ipv4) (p : List ℕ) (v : IsIncoming env stream len id s.host_address source p)
      → s.frag_mem ≤ frag_high_thresh
      → IsReassembling stream len (frag_of s.frags id)
      → Returns (handle_received_packet env false p source now s) (Handles stream len id s v.hdr p)
  handled s p v low w =
      rw (incoming-fragment s p v) (fragment-Handles s v.hdr p low v.known v.fragment w v.id_is)
