-- ===== src/Ip/Receive/Datagram.antt =====
-- A fragment of a datagram that is on its way, at `handle_received_packet`.
use actor_network.Prelude.{
  ==_iff, Bool, List, Option, Returns, Returns-bind, Returns-if, [], ap, arith, false, inl, inr,
  length, le→leb, none, refl, some, true, ℕ, ◌++◌, ◌<◌, ◌==◌, ◌∙◌, ◌∷◌, ◌≡◌, ◌≤◌, ◌⊎◌,
}
use actor_network.Ip.{Delivery, Frag, FragId, IpEnv, IpHdr, Ipv4, frag_high_thresh}
use actor_network.Ip.Fragments.{
  arm_if_idle, first_packet, frag_arm, frag_drop, frag_limit_mem, frag_of, fresh_frag, is_complete,
}
use actor_network.Ip.Fragments.Complete.{first_packet-is_complete, is_complete_iff}
use actor_network.Ip.Fragments.Keys.{frag_of-erase_same, frag_of-put_same}
use actor_network.Ip.Fragments.Reassembly.{IsAdded, IsFragmentOf, IsReassembling, merged-IsAdded}
use actor_network.Ip.Hash.{has_l4, toeplitz_hash}
use actor_network.Ip.Receive.{after_merge, deliver, handle_fragment, id_of, pass_up}
use actor_network.Ip.Send.{room}
use actor_network.Merger.Segments.{Covers, cut}

-- The delivery of the whole datagram.
abbrev pub datagram : IpHdr → List ℕ → Delivery
datagram h payload = record {
  proto = h.ip_proto;
  bytes = payload;
  source = h.src_ip;
  target = h.dst_ip;
}

-- What became of the state `s`: the entry has the fragment now. If that makes the datagram complete,
-- it has been delivered and its entry is gone; if not, the entry waits.
pub record IsHandled (stream : ℕ → ℕ) (len : ℕ) (h : IpHdr) (p : List ℕ) (s s' : Ipv4)
    : Type 0 where
  pub frag : Frag
  pub added : IsAdded stream len h p (frag_of s.frags (id_of h)) frag
  pub host_is : s'.host_address ≡ s.host_address
  pub outcome :
      (((x : ℕ) → x < len → Covers x frag.ip_data.map)
        × (s'.deliveries ≡ s.deliveries ++ (datagram h (cut stream 0 len) ∷ []))
        × (frag_of s'.frags (id_of h) ≡ fresh_frag))
      ⊎ (¬ ((x : ℕ) → x < len → Covers x frag.ip_data.map)
          × (s'.deliveries ≡ s.deliveries)
          × (frag_of s'.frags (id_of h) ≡ frag))

toeplitz_hash-Returns :
    (key input : List ℕ) → 4 ≤ length key → Returns (toeplitz_hash key input) (λ n. Unit)
unfolding toeplitz_hash
toeplitz_hash-Returns [] input h = omega arith
toeplitz_hash-Returns (a ∷ []) input h = omega arith
toeplitz_hash-Returns (a ∷ b ∷ []) input h = omega arith
toeplitz_hash-Returns (a ∷ b ∷ c ∷ []) input h = omega arith
toeplitz_hash-Returns (a ∷ b ∷ c ∷ d ∷ key) input h = tt

not_true : {b : Bool} → b ≡ false → ¬ (b ≡ true)
not_true e d = cc

-- Arming the timer changes nothing else.
armed_deliveries :
    (timer : Option ℕ) (now : ℕ) (t : Ipv4) → (arm_if_idle timer now t).deliveries ≡ t.deliveries
unfolding frag_arm
armed_deliveries none now t = refl
armed_deliveries (some _) now t = refl

armed_host :
    (timer : Option ℕ) (now : ℕ) (t : Ipv4)
    → (arm_if_idle timer now t).host_address ≡ t.host_address
unfolding frag_arm
armed_host none now t = refl
armed_host (some _) now t = refl

armed_frags :
    (timer : Option ℕ) (now : ℕ) (t : Ipv4) (id : FragId)
    → frag_of (arm_if_idle timer now t).frags id ≡ frag_of t.frags id
unfolding frag_arm
armed_frags none now t id = refl
armed_frags (some _) now t id = refl

module _ (env : IpEnv) (key : 4 ≤ length env.rss_key)
    (local : (hash : ℕ) → env.hash2cpu hash ≡ env.this_shard) where
  pass_up-deliver :
      (h : IpHdr) (source : ℕ) (f : Frag) (s : Ipv4)
      → has_l4 h.ip_proto ≡ true
      → Returns (pass_up env h source f s) (λ s'. s' ≡ deliver h (first_packet f.ip_data.map) s)
  unfolding pass_up
  pass_up-deliver h source f s known = rw known (
      Returns-bind (λ n. Unit) _ (toeplitz_hash env.rss_key _) _
        (toeplitz_hash-Returns env.rss_key _ key)
        (λ hash u.
          let here : (env.hash2cpu hash == env.this_shard) ≡ true =
            (==_iff (env.hash2cpu hash) env.this_shard).1 (local hash) in
          rw here refl))

  after_merge-IsHandled :
      (stream : ℕ → ℕ) (len : ℕ) (h : IpHdr) (p : List ℕ) (source now : ℕ) (f : Frag) (s t : Ipv4)
      → 0 < len
      → has_l4 h.ip_proto ≡ true
      → IsAdded stream len h p (frag_of s.frags (id_of h)) f
      → t.deliveries ≡ s.deliveries
      → t.host_address ≡ s.host_address
      → frag_of t.frags (id_of h) ≡ f
      → Returns (after_merge env h source now f t) (IsHandled stream len h p s)
  unfolding after_merge frag_drop
  after_merge-IsHandled stream len h p source now f s t pos known a ds host found =
      let complete = is_complete_iff stream len f pos a.reassembling in
      Returns-if (IsHandled stream len h p s) (is_complete f) _ _
        (λ e.
          Returns-bind (λ s'. s' ≡ deliver h (first_packet f.ip_data.map) t)
            (IsHandled stream len h p s) (pass_up env h source f t) _
            (pass_up-deliver h source f t known)
            (λ s' d. record {
              frag = f;
              added = a;
              host_is = ap Ipv4.host_address d ∙ host;
              outcome = inl (
                complete.0 e,
                ap Ipv4.deliveries d
                    ∙ ap (λ l. l ++ (datagram h (first_packet f.ip_data.map) ∷ [])) ds
                    ∙ ap (λ l. s.deliveries ++ (datagram h l ∷ []))
                        (first_packet-is_complete stream len f a.reassembling e),
                frag_of-erase_same s'.frags (id_of h),
              );
            }))
        (λ e. record {
          frag = f;
          added = a;
          host_is = armed_host t.frag_timer now t ∙ host;
          outcome = inr (
            λ c. not_true e (complete.1 c),
            armed_deliveries t.frag_timer now t ∙ ds,
            armed_frags t.frag_timer now t (id_of h) ∙ found,
          );
        })

  -- A fragment of a datagram is added to what has come of it. When every byte of the datagram is there,
  -- the datagram goes to its protocol, once and whole, and its entry is gone; as long as a byte is
  -- missing nothing is delivered and the entry waits. The memory is within its limit, and the
  -- protocol one that is there; all connections are of this shard.
  pub handle_fragment-IsHandled :
      (stream : ℕ → ℕ) (len : ℕ) (h : IpHdr) (p : List ℕ) (source now : ℕ) (s : Ipv4)
      → s.frag_mem ≤ frag_high_thresh
      → has_l4 h.ip_proto ≡ true
      → IsFragmentOf stream len h p
      → IsReassembling stream len (frag_of s.frags (id_of h))
      → Returns (handle_fragment env h p source now s) (IsHandled stream len h p s)
  unfolding handle_fragment frag_limit_mem
  handle_fragment-IsHandled stream len h p source now s room known v w =
      rw (le→leb s.frag_mem frag_high_thresh room) (
        Returns-bind (λ r. IsAdded stream len h p (frag_of s.frags (id_of h)) r.0) _ _ _
          (merged-IsAdded stream len env.impl_size h p (frag_of s.frags (id_of h)) v w now)
          (λ r a.
            after_merge-IsHandled stream len h p source now r.0 s _
              (omega (arith, v.nonempty, v.ends)) known a refl refl
              (frag_of-put_same s.frags (id_of h) r.0)))
