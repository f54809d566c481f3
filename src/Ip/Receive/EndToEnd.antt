-- ===== src/Ip/Receive/EndToEnd.antt =====
-- From `send` on one host to `handle_received_packet` on another with the same device.
use actor_network.Prelude.{
  List, Returns, Returns_map, [], ap, arith, drop, drop-drop, false, inl, inr, length, length-drop,
  length-take, refl, some-injective, subst, sym, take, take_all, true, ℕ, ◌%◌, ◌++◌, ◌+◌, ◌-◌, ◌<◌,
  ◌^◌, ◌∙◌, ◌∷◌, ◌≡◌, ◌≤◌,
}
use actor_network.Ip.{FragId, IpEnv, IpFeatures, IpHdr, Ipv4, L3Packet, ip_packet_len_max}
use actor_network.Ip.Fragments.{frag_of, fresh_frag}
use actor_network.Ip.Fragments.Orders.{Carried}
use actor_network.Ip.Fragments.Reassembly.{IsFragmentOf}
use actor_network.Ip.Fragments.Sent.{
  Carries-Carried, OneOf, SamePackets, bytes_of, piece-IsFragment, pieces-AllOf, stream_of,
  take-stream_of,
}
use actor_network.Ip.Hash.{has_l4}
use actor_network.Ip.Receive.Delivers.{run-delivers}
use actor_network.Ip.Receive.Run.{AllIncoming, IsIncoming, Runs, delivery_of}
use actor_network.Ip.Send.{Route, needs_frag, send}
use actor_network.Ip.Send.Loop.{Pieces, Sends, send-Sends}
use actor_network.Ip.Send.Pieces.{IsPiece}
use actor_network.Merger.Segments.{cut}

-- What holds of every piece of a packet holds of every queued packet.
every_piece :
    (env : IpEnv) (r : Route) (host : ℕ) (p : List ℕ) (P : L3Packet → Type 0)
    → ((n offset : ℕ) (q : L3Packet)
        → 0 < n
        → offset + n ≤ length p
        → IsPiece env r host offset (length (drop offset p) - n) (take n (drop offset p)) q
        → P q)
    → (offset : ℕ) (qs : List L3Packet) → offset ≤ length p
    → Pieces env r host offset (drop offset p) qs
    → (q : L3Packet) → OneOf q qs
    → P q
every_piece env r host p P f offset [] le e q i = elim i [ ]
every_piece env r host p P f offset (k ∷ qs) le (n, pos, fits, v, further) q i =
    let inside : offset + n ≤ length p = omega (arith, length-drop offset p) in
    elim i [
      | inl e ↦ subst P (sym e) (f n offset k pos inside v)
      | inr j ↦
          every_piece env r host p P f (offset + n) qs inside
            (subst (λ l. Pieces env r host (offset + n) l qs) (drop-drop n offset p) further) q j
    ]

-- The datagrams that `send` makes.
abbrev pub sent_id : Route → ℕ → FragId
sent_id r host = record {
  src_ip = host;
  dst_ip = r.to;
  identification = 0;
  protocol = r.proto_num % 2 ^ 8;
}

module _ (env : IpEnv) (r : Route) (host : ℕ) (p : List ℕ) (source : ℕ)
    (open_filter : (h : IpHdr) (bytes : List ℕ) → env.filter h bytes source ≡ false)
    (known : has_l4 (r.proto_num % 2 ^ 8) ≡ true) (small : length p + 20 ≤ ip_packet_len_max)
    (big : env.features.mtu < length p + 20) where
  piece-IsIncoming :
      (n offset : ℕ) (q : L3Packet)
      → 0 < n
      → offset + n ≤ length p
      → IsPiece env r host offset (length (drop offset p) - n) (take n (drop offset p)) q
      → IsIncoming env (stream_of p) (length p) (sent_id r host) r.to source q.bytes
  piece-IsIncoming n offset q pos le v =
      let (k, e, f) = (piece-IsFragment env r host p n offset q pos le v).0 in
      record {
        hdr = v.hdr;
        reads = v.reads;
        fragment =
            subst (λ h. IsFragmentOf (stream_of p) (length p) h q.bytes)
              (some-injective k v.hdr (sym e ∙ v.reads)) f;
        part = ground (arith, v.mf_is, v.offset_is, v.fits, size, length-drop offset p);
        id_is = λ i. record {
          src_ip = v.source_is i;
          dst_ip = v.target_is i;
          identification = v.id_is i;
          protocol = v.proto_is i;
        };
        len_is = v.len_is;
        short = omega (arith, v.offset_is, size);
        let_through = open_filter v.hdr q.bytes;
        target_is = v.target_is;
        known = ap has_l4 v.proto_is ∙ known;
      }
    where
      size : length q.bytes ≡ 20 + n
      size = omega (
        arith,
        length-drop 20 q.bytes,
        ap length v.carries,
        length-take n (drop offset p),
        length-drop offset p,
      )

all_incoming :
    (env : IpEnv) (stream : ℕ → ℕ) (len : ℕ) (id : FragId) (source to : ℕ) (order : List L3Packet)
    → ((q : L3Packet) → OneOf q order → IsIncoming env stream len id to source q.bytes)
    → AllIncoming env stream len id source to (bytes_of order)
all_incoming env stream len id source to [] f = tt
all_incoming env stream len id source to (q ∷ qs) f =
    (f q (inl refl), all_incoming env stream len id source to qs (λ k i. f k (inr i)))

bytes_of-append :
    (ps : List L3Packet) (q : L3Packet) → bytes_of (ps ++ (q ∷ [])) ≡ bytes_of ps ++ (q.bytes ∷ [])
bytes_of-append [] q = refl
bytes_of-append (p ∷ ps) q = ap (◌∷◌ p.bytes) (bytes_of-append ps q)

too_big :
    (p : List ℕ) (proto : ℕ) (hw : IpFeatures)
    → needs_frag p proto hw ≡ true
    → hw.mtu < length p + 20
unfolding needs_frag
too_big p proto hw e = ground arith

-- What was queued since `s` is delivered by the host `t`, if it comes in any order of which the last
-- packet brings the last bytes, and if no other packet of that datagram is there.
abbrev pub Delivered : IpEnv → Route → ℕ → ℕ → List ℕ → Ipv4 → Ipv4 → Ipv4 → Type 0
Delivered env r source now p t s s' =
    (qs : List L3Packet) × (s'.packetq ≡ s.packetq ++ qs)
    × ((ps : List L3Packet) (q : L3Packet)
        → SamePackets qs (ps ++ (q ∷ []))
        → ¬ ((x : ℕ) → x < length p → Carried env.be x (bytes_of ps))
        → Runs env source now (bytes_of ps ++ (q.bytes ∷ [])) t
            (λ u. u.deliveries ≡ t.deliveries ++ (delivery_of (sent_id r s.host_address) p ∷ [])))

-- A packet that has to be fragmented is sent without a fault; and when its fragments have come to the
-- host that they are for, in any order, repeated or not, where the last to come brings bytes that were
-- missing, that host's handler has delivered the packet to the protocol, once and whole. The packet
-- fits a datagram, and the room in the MTU is a multiple of 8. The hosts have the same device, which
-- checks the checksums and whose key, of four bytes at least, takes all connections to the shard. The
-- protocol is one that is there, no filter takes the packets, no fragment under their id is there
-- before, and the memory of the fragments is within its limit at each packet.
pub send-Delivered :
    (env : IpEnv) (r : Route) (p : List ℕ) (s t : Ipv4) (source now : ℕ)
    → 4 ≤ length env.rss_key
    → ((hash : ℕ) → env.hash2cpu hash ≡ env.this_shard)
    → env.features.rx_csum_offload ≡ true
    → ((h : IpHdr) (bytes : List ℕ) → env.filter h bytes source ≡ false)
    → has_l4 (r.proto_num % 2 ^ 8) ≡ true
    → r.to < 2 ^ 32
    → s.host_address < 2 ^ 32
    → 28 ≤ env.features.mtu
    → env.features.mtu < 2 ^ 16
    → (env.features.mtu - 20) % 8 ≡ 0
    → 0 < length p
    → length p + 20 ≤ ip_packet_len_max
    → needs_frag p r.proto_num env.features ≡ true
    → t.host_address ≡ r.to
    → frag_of t.frags (sent_id r s.host_address) ≡ fresh_frag
    → Returns (send env r p s) (Delivered env r source now p t s)
send-Delivered env r p s t source now key local checked open_filter known to host lo hi multiple pos
      small frag target new =
    Returns_map (Sends env r 0 p s) (Delivered env r source now p t s) (send env r p s)
      (send-Sends env r p s to host lo hi multiple (omega arith) frag)
      (λ s' (qs, e, pieces). (
        qs,
        ap Ipv4.packetq e,
        λ ps q same missing.
            let id = sent_id r s.host_address in
            let sent = pieces-AllOf env r s.host_address p 0 qs (omega arith) pieces in
            let incoming : AllIncoming env (stream_of p) (length p) id source t.host_address
                (bytes_of ps ++ (q.bytes ∷ [])) =
              subst (AllIncoming env (stream_of p) (length p) id source t.host_address)
                (bytes_of-append ps q)
                (all_incoming env (stream_of p) (length p) id source t.host_address (ps ++ (q ∷ []))
                  (λ k i.
                    subst (λ n. IsIncoming env (stream_of p) (length p) id n source k.bytes)
                      (sym target)
                      (every_piece env r s.host_address p _
                        (piece-IsIncoming env r s.host_address p source open_filter known small
                          (too_big p r.proto_num env.features frag))
                        0 qs (omega arith) pieces k (same.none_new k i)))) in
            let whole_again : cut (stream_of p) 0 (length p) ≡ p =
              sym (take-stream_of p (length p) 0 (omega arith)) ∙ take_all p in
            subst
              (λ l.
                Runs env source now (bytes_of ps ++ (q.bytes ∷ [])) t
                  (λ u. u.deliveries ≡ t.deliveries ++ (delivery_of id l ∷ [])))
              whole_again
              (run-delivers env (stream_of p) (length p) id source now (bytes_of ps) q.bytes t key
                local checked new incoming missing
                (λ x h.
                  let (k, i, c) = sent.1 x (omega arith) h in
                  subst (Carried env.be x) (bytes_of-append ps q)
                    (Carries-Carried env.be x k (ps ++ (q ∷ [])) (same.none_lost k i) c))),
      ))
