-- ===== src/Ip/Fragments/Sent.antt =====
-- What `send` has cut up, put together again.
use actor_network.Prelude.{
  Bool-cases, List, Returns, Returns_map, [], ap, arith, drop, drop-drop, get_or, inl, inr, length,
  length-drop, length-take, ltb, ltb→lt, refl, subst, suc, sym, take, take_all, true, zero, ℕ, ◌%◌,
  ◌*◌, ◌++◌, ◌+◌, ◌-◌, ◌<◌, ◌^◌, ◌∙◌, ◌∷◌, ◌≡◌, ◌≤◌, ◌⊎◌,
}
use actor_network.Ip.{IpEnv, Ipv4, L3Packet, offset_of}
use actor_network.Ip.Fragments.{first_packet, fresh_frag, is_complete}
use actor_network.Ip.Fragments.Orders.{
  AreFragments, Carried, Carries, IsFragment, IsReassembled, merge_all, merge_all-IsReassembled,
}
use actor_network.Ip.Fragments.Reassembly.{payload_of}
use actor_network.Ip.Send.{Route, needs_frag, send}
use actor_network.Ip.Send.Loop.{Pieces, Sends, send-Sends}
use actor_network.Ip.Send.Pieces.{IsPiece}
use actor_network.Merger.Segments.{InSegment, cut}
use actor_network.Tcp.Core.{BigEndian}

unfoldable pub stream_of : List ℕ → ℕ → ℕ
stream_of p x = get_or p x 0

drop-get_or : (b : ℕ) (p : List ℕ) → b < length p → drop b p ≡ get_or p b 0 ∷ drop (suc b) p
drop-get_or b [] h = elim h [ ]
drop-get_or zero (x ∷ p) h = refl
drop-get_or (suc b) (x ∷ p) h = drop-get_or b p (omega arith)

pub take-stream_of :
    (p : List ℕ) (n b : ℕ) → b + n ≤ length p → take n (drop b p) ≡ cut (stream_of p) b n
unfolding stream_of
take-stream_of p zero b h = refl
take-stream_of p (suc n) b h =
    ap (take (suc n)) (drop-get_or b p (omega arith))
    ∙ ap (◌∷◌ (get_or p b 0)) (take-stream_of p n (suc b) (omega arith))

abbrev pub OneOf : L3Packet → List L3Packet → Type 0
OneOf q [] = ⊥
OneOf q (k ∷ qs) = (q ≡ k) ⊎ OneOf q qs

module _ (env : IpEnv) (r : Route) (host : ℕ) (p : List ℕ) where
  -- A queued piece is a fragment of the packet.
  pub piece-IsFragment :
      (n offset : ℕ) (q : L3Packet)
      → 0 < n
      → offset + n ≤ length p
      → IsPiece env r host offset (length (drop offset p) - n) (take n (drop offset p)) q
      → IsFragment env.be (stream_of p) (length p) q.bytes
        × ((x : ℕ) → InSegment x offset n → Carries env.be x q.bytes)
  piece-IsFragment n offset q pos le v = (
    (
      v.hdr,
      v.reads,
      record {
        size = n;
        size_is = omega (arith, v.ihl_is, size);
        payload =
            payload
            ∙ take-stream_of p n offset le
            ∙ ap (λ b. cut (stream_of p) b n) (sym v.offset_is);
        nonempty = pos;
        ends = omega (arith, v.offset_is);
        mf_is = v.mf_is ∙ more;
      },
    ),
    λ x i. (
      v.hdr,
      v.reads,
      (omega (arith, v.offset_is, i.0), omega (arith, v.offset_is, i.1, payload_size)),
    ),
  )
    where
      size : length q.bytes ≡ 20 + n
      size = omega (
        arith,
        length-drop 20 q.bytes,
        ap length v.carries,
        length-take n (drop offset p),
        length-drop offset p,
      )

      payload : payload_of v.hdr q.bytes ≡ take n (drop offset p)
      payload = ap (λ l. drop (l * 4) q.bytes) v.ihl_is ∙ v.carries

      payload_size : length (payload_of v.hdr q.bytes) ≡ n
      payload_size =
          omega (arith, ap length payload, length-take n (drop offset p), length-drop offset p)

      more : ltb 0 (length (drop offset p) - n) ≡ ltb (offset_of v.hdr + n) (length p)
      more = ground (arith, v.offset_is, length-drop offset p)

  -- Every queued packet is a fragment, and together they carry every byte.
  abbrev pub AllOf : ℕ → List L3Packet → Type 0
  AllOf offset qs =
      ((q : L3Packet) → OneOf q qs → IsFragment env.be (stream_of p) (length p) q.bytes)
      × ((x : ℕ)
          → offset ≤ x
          → x < length p
          → (q : L3Packet) × OneOf q qs × Carries env.be x q.bytes)

  first-AllOf :
      (n offset : ℕ) (q : L3Packet) (qs : List L3Packet)
      → IsFragment env.be (stream_of p) (length p) q.bytes
        × ((x : ℕ) → InSegment x offset n → Carries env.be x q.bytes)
      → AllOf (offset + n) qs
      → AllOf offset (q ∷ qs)
  first-AllOf n offset q qs piece rest = (
    λ k i. elim i [
      | inl e ↦ subst (λ l. IsFragment env.be (stream_of p) (length p) l.bytes) (sym e) piece.0
      | inr j ↦ rest.0 k j
    ],
    λ x lo hi. elim (Bool-cases (ltb x (offset + n))) [
      | inl e ↦ (q, inl refl, piece.1 x (lo, ltb→lt x (offset + n) e))
      | inr e ↦ let (k, j, c) = rest.1 x (ground arith) hi in (k, inr j, c)
    ],
  )

  pub pieces-AllOf :
      (offset : ℕ) (qs : List L3Packet)
      → offset ≤ length p
      → Pieces env r host offset (drop offset p) qs
      → AllOf offset qs
  pieces-AllOf offset [] le e = (
    λ q i. elim i [ ],
    λ x lo hi. let bad : ⊥ = omega (arith, ap length e, length-drop offset p) in elim bad [ ],
  )
  pieces-AllOf offset (q ∷ qs) le (n, pos, fits, v, further) =
      let inside : offset + n ≤ length p = omega (arith, length-drop offset p) in
      first-AllOf n offset q qs (piece-IsFragment n offset q pos inside v) (
        pieces-AllOf (offset + n) qs inside
          (subst (λ l. Pieces env r host (offset + n) l qs) (drop-drop n offset p) further))

-- A list of packets in some order, which has the same packets.
pub record SamePackets (qs order : List L3Packet) : Type 0 where
  pub none_lost : (q : L3Packet) → OneOf q qs → OneOf q order
  pub none_new : (q : L3Packet) → OneOf q order → OneOf q qs

abbrev pub bytes_of : List L3Packet → List (List ℕ)
bytes_of [] = []
bytes_of (q ∷ qs) = q.bytes ∷ bytes_of qs

module _ (be : BigEndian) where
  all-AreFragments :
      (stream : ℕ → ℕ) (len : ℕ) (order : List L3Packet)
      → ((q : L3Packet) → OneOf q order → IsFragment be stream len q.bytes)
      → AreFragments be stream len (bytes_of order)
  all-AreFragments stream len [] h = tt
  all-AreFragments stream len (q ∷ qs) h =
      (h q (inl refl), all-AreFragments stream len qs (λ k i. h k (inr i)))

  pub Carries-Carried :
      (x : ℕ) (q : L3Packet) (order : List L3Packet)
      → OneOf q order
      → Carries be x q.bytes
      → Carried be x (bytes_of order)
  Carries-Carried x q [] i c = elim i [ ]
  Carries-Carried x q (k ∷ order) (inl e) c = inl (subst (λ l. Carries be x l.bytes) e c)
  Carries-Carried x q (k ∷ order) (inr i) c = inr (Carries-Carried x q order i c)

-- The packets that `send` queues for a packet, received in any order, are complete when they are all
-- in, and what they make is the packet that was sent.
pub pieces-reassembled :
    (env : IpEnv) (r : Route) (host : ℕ) (p : List ℕ) (impl_size now : ℕ) (qs order : List L3Packet)
    → 0 < length p
    → Pieces env r host 0 p qs
    → SamePackets qs order
    → Returns
        (merge_all env.be impl_size now (bytes_of order) fresh_frag)
        (λ f. (is_complete f ≡ true) × (first_packet f.ip_data.map ≡ p))
pieces-reassembled env r host p impl_size now qs order pos pieces same =
    Returns_map (IsReassembled env.be (stream_of p) (length p) (bytes_of order)) _ _
      (merge_all-IsReassembled env.be (stream_of p) (length p) impl_size now (bytes_of order) pos (
        all-AreFragments env.be (stream_of p) (length p) order
          (λ q i. all.0 q (same.none_new q i))))
      (λ f t.
        let complete = t.0.1 (λ x h.
          let (q, i, c) = all.1 x (omega arith) h in
          Carries-Carried env.be x q order (same.none_lost q i) c) in
        (complete, t.1 complete ∙ sym (take-stream_of p (length p) 0 (omega arith)) ∙ take_all p))
  where
    all : AllOf env r host p 0 qs
    all = pieces-AllOf env r host p 0 qs (omega arith) pieces

-- What was queued since `s` is, in whatever order it arrives, put together to `p`.
abbrev pub Arrives : IpEnv → ℕ → ℕ → List ℕ → Ipv4 → Ipv4 → Type 0
Arrives env impl_size now p s s' =
    (qs : List L3Packet) × (s'.packetq ≡ s.packetq ++ qs)
    × ((order : List L3Packet)
        → SamePackets qs order
        → Returns (merge_all env.be impl_size now (bytes_of order) fresh_frag)
            (λ f. (is_complete f ≡ true) × (first_packet f.ip_data.map ≡ p)))

-- A packet below 64 KiB that has to be fragmented, on a link whose MTU leaves room for a multiple of 8
-- bytes, is sent without a fault. When the packets that this queues have been received, in any order,
-- the datagram is complete, and its data is the packet that was sent.
pub send-Arrives :
    (env : IpEnv) (r : Route) (p : List ℕ) (s : Ipv4) (impl_size now : ℕ)
    → r.to < 2 ^ 32
    → s.host_address < 2 ^ 32
    → 28 ≤ env.features.mtu
    → env.features.mtu < 2 ^ 16
    → (env.features.mtu - 20) % 8 ≡ 0
    → 0 < length p
    → length p < 2 ^ 16
    → needs_frag p r.proto_num env.features ≡ true
    → Returns (send env r p s) (Arrives env impl_size now p s)
send-Arrives env r p s impl_size now to host lo hi multiple pos short frag =
    Returns_map (Sends env r 0 p s) (Arrives env impl_size now p s) (send env r p s)
      (send-Sends env r p s to host lo hi multiple short frag)
      (λ s' (qs, e, pieces). (
        qs,
        ap Ipv4.packetq e,
        λ order same.
            pieces-reassembled env r s.host_address p impl_size now qs order pos pieces same,
      ))
