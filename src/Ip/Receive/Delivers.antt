-- ===== src/Ip/Receive/Delivers.antt =====
-- When the fragments of a datagram are delivered.
use actor_network.Prelude.{
  List, Returns, Returns_map, [], ap₂, false, inl, inr, length, refl, some-injective, subst, sym,
  true, ℕ, ◌++◌, ◌<◌, ◌∙◌, ◌∷◌, ◌≡◌, ◌≤◌, ◌⊎◌,
}
use actor_network.Ip.{FragId, IpEnv, Ipv4, frag_high_thresh, offset_of}
use actor_network.Ip.Fragments.{frag_of, fresh_frag}
use actor_network.Ip.Fragments.Orders.{AreAdded, AreAdded-cons, Carried, Carries}
use actor_network.Ip.Fragments.Reassembly.{
  IsAdded, IsReassembling, fresh-IsReassembling, payload_of,
}
use actor_network.Ip.Receive.{handle_received_packet}
use actor_network.Ip.Receive.Run.{
  AllIncoming, Handles, IsIncoming, Runs, Runs-append, Runs_map, delivery_of, handled,
}
use actor_network.Merger.Segments.{Covers, InSegment, cut}
use actor_network.Tcp.Core.{BigEndian}

-- The last of some packets, and those before it.
split-Incoming :
    (env : IpEnv) (stream : ℕ → ℕ) (len : ℕ) (id : FragId) (source to : ℕ) (ps : List (List ℕ))
    (q : List ℕ)
    → AllIncoming env stream len id source to (ps ++ (q ∷ []))
    → AllIncoming env stream len id source to ps × IsIncoming env stream len id to source q
split-Incoming env stream len id source to [] q vs = (tt, vs.0)
split-Incoming env stream len id source to (p ∷ ps) q vs =
    let (us, v) = split-Incoming env stream len id source to ps q vs.1 in ((vs.0, us), v)

Carried-last :
    (be : BigEndian) (x : ℕ) (ps : List (List ℕ)) (q : List ℕ)
    → Carried be x (ps ++ (q ∷ []))
    → Carried be x ps ⊎ Carries be x q
Carried-last be x [] q (inl c) = inr c
Carried-last be x [] q (inr c) = elim c [ ]
Carried-last be x (p ∷ ps) q (inl c) = inl (inl c)
Carried-last be x (p ∷ ps) q (inr c) = elim (Carried-last be x ps q c) [
  | inl i ↦ inl (inr i)
  | inr i ↦ inr i
]

module _ (env : IpEnv) (key : 4 ≤ length env.rss_key)
    (local : (hash : ℕ) → env.hash2cpu hash ≡ env.this_shard)
    (checked : env.features.rx_csum_offload ≡ true) (stream : ℕ → ℕ) (len : ℕ) (id : FragId)
    (source now : ℕ) where
  -- Nothing has been delivered, and the entry has the packets.
  record Waits (ps : List (List ℕ)) (s s' : Ipv4) : Type 0 where
    host_is : s'.host_address ≡ s.host_address
    none_delivered : s'.deliveries ≡ s.deliveries
    added :
        AreAdded env.be stream len env.impl_size now ps (frag_of s.frags id) (frag_of s'.frags id)

  -- As long as a byte is missing.
  run-Waits :
      (ps : List (List ℕ)) (s : Ipv4)
      → AllIncoming env stream len id source s.host_address ps
      → IsReassembling stream len (frag_of s.frags id)
      → ¬ ((x : ℕ) → x < len → Carried env.be x ps ⊎ Covers x (frag_of s.frags id).ip_data.map)
      → Runs env source now ps s (Waits ps s)
  run-Waits [] s vs w missing = record {
    host_is = refl;
    none_delivered = refl;
    added = record {
      reassembling = w;
      covers = λ x. (inr, λ c. elim c [ inl i ↦ elim i [ ] | inr i ↦ i ]);
    };
  }
  run-Waits (p ∷ ps) s (v, vs) w missing = λ low.
      Returns_map (Handles stream len id s v.hdr p) _
        (handle_received_packet env false p source now s)
        (handled env key local checked stream len id source now s p v low w)
        (λ t (f, a, host, outcome). elim outcome [
          | inl (c, d) ↦ absurd (
              missing (λ x h. elim ((a.covers x).0 (c x h)) [
                | inl i ↦ inl (inl (v.hdr, v.reads, i))
                | inr i ↦ inr i
              ]))
          | inr (c, d, e) ↦
              Runs_map env source now ps t (Waits ps t) (Waits (p ∷ ps) s)
                (run-Waits ps t
                  (subst (λ n. AllIncoming env stream len id source n ps) (sym host) vs)
                  (subst (IsReassembling stream len) (sym e) a.reassembling)
                  (λ all. missing (λ x h. elim (all x h) [
                    | inl i ↦ inl (inr i)
                    | inr i ↦ elim ((a.covers x).0 (subst (λ g. Covers x g.ip_data.map) e i)) [
                      | inl j ↦ inl (inl (v.hdr, v.reads, j))
                      | inr j ↦ inr j
                    ]
                  ])))
                (λ u r. record {
                  host_is = r.host_is ∙ host;
                  none_delivered = r.none_delivered ∙ d;
                  added =
                      AreAdded-cons env.be stream len env.impl_size now p ps v.hdr
                        (frag_of s.frags id) (frag_of t.frags id) (frag_of u.frags id) v.reads
                        (subst (λ g. IsAdded stream len v.hdr p (frag_of s.frags id) g) (sym e) a)
                        r.added;
                })
        ])

  -- The packet that brings the last byte.
  last-delivers :
      (ps : List (List ℕ)) (q : List ℕ) (s t : Ipv4)
      → frag_of s.frags id ≡ fresh_frag
      → IsIncoming env stream len id s.host_address source q
      → ((x : ℕ) → x < len → Carried env.be x ps ⊎ Carries env.be x q)
      → Waits ps s t
      → t.frag_mem ≤ frag_high_thresh
      → Returns
          (handle_received_packet env false q source now t)
          (λ u. u.deliveries ≡ s.deliveries ++ (delivery_of id (cut stream 0 len) ∷ []))
  last-delivers ps q s t new v0 all r low =
      let v : IsIncoming env stream len id t.host_address source q =
        subst (λ n. IsIncoming env stream len id n source q) (sym r.host_is) v0 in
      Returns_map (Handles stream len id t v.hdr q) _
        (handle_received_packet env false q source now t)
        (handled env key local checked stream len id source now t q v low r.added.reassembling)
        (λ u (f, a, host, outcome). elim outcome [
          | inl (c, d) ↦
              d ∙ ap₂ (λ l i. l ++ (delivery_of i (cut stream 0 len) ∷ [])) r.none_delivered v.id_is
          | inr (c, d, e) ↦ absurd (
              c (λ x h. (a.covers x).1 (elim (all x h) [
                | inl i ↦ inr ((r.added.covers x).1 (inl i))
                | inr (h', e', i) ↦
                    let same : h' ≡ v.hdr = some-injective h' v.hdr (sym e' ∙ v.reads) in
                    inl (subst (λ l. InSegment x (offset_of l) (length (payload_of l q))) same i)
              ])))
        ])

-- Fragments of one datagram for the host arrive, in any order, repeated or overlapping, until with the
-- last of them every byte of it is there, where before a byte was missing. Then every packet is handled,
-- and after the last of them the datagram has been delivered, once and whole. This holds when none of
-- the datagram was there before, as long as the fragments in memory are within their limit. The device
-- checks the checksums, and its key, of four bytes at least, takes all connections to this shard.
pub run-delivers :
    (env : IpEnv) (stream : ℕ → ℕ) (len : ℕ) (id : FragId) (source now : ℕ) (ps : List (List ℕ))
    (q : List ℕ) (s : Ipv4)
    → 4 ≤ length env.rss_key
    → ((hash : ℕ) → env.hash2cpu hash ≡ env.this_shard)
    → env.features.rx_csum_offload ≡ true
    → frag_of s.frags id ≡ fresh_frag
    → AllIncoming env stream len id source s.host_address (ps ++ (q ∷ []))
    → ¬ ((x : ℕ) → x < len → Carried env.be x ps)
    → ((x : ℕ) → x < len → Carried env.be x (ps ++ (q ∷ [])))
    → Runs env source now
        (ps ++ (q ∷ []))
        s
        (λ u. u.deliveries ≡ s.deliveries ++ (delivery_of id (cut stream 0 len) ∷ []))
run-delivers env stream len id source now ps q s key local checked new vs missing all =
    let (us, v) = split-Incoming env stream len id source s.host_address ps q vs in
    Runs-append env source now ps (q ∷ []) s _ (
      Runs_map env source now ps s (Waits env key local checked stream len id source now ps s) _
        (run-Waits env key local checked stream len id source now ps s us
          (subst (IsReassembling stream len) (sym new) (fresh-IsReassembling stream len))
          (λ c. missing (λ x h. elim (c x h) [
            | inl i ↦ i
            | inr i ↦ absurd (subst (λ f. Covers x f.ip_data.map) new i)
          ])))
        (λ t r low.
          last-delivers env key local checked stream len id source now ps q s t new v
            (λ x h. Carried-last env.be x ps q (all x h)) r low))
