-- ===== src/Ip/Receive/Kept.antt =====
-- A received packet keeps the table of fragments in order.
-- How a merge changes the size of an entry.
use actor_network.Prelude.{
  Bool, Ensures, Ensures-bind, Ensures-if, Ensures_any, List, Option, ap, arith, drop, guard, inl,
  inr, leb, length, ltb, none, not, refl, some, subst, sym, take, ℕ, ◌%◌, ◌*◌, ◌+◌, ◌<◌, ◌==◌, ◌^◌,
  ◌||◌, ◌∙◌, ◌≡◌,
}
use actor_network.Ip.{Delivery, Frag, IpEnv, IpHdr, Ipv4, ip_packet_len_max, mf_of, offset_of}
use actor_network.Ip.Fragments.{
  aged, erase_frag, frag_drop, frag_limit_mem, frag_merge, frag_of, get_assembled_packet,
  is_complete, opened_frag, put_frag, remove_id, stored_header, sub32,
}
use actor_network.Ip.Fragments.Keys.{frag_of-put_same}
use actor_network.Ip.Fragments.Updates.{put-Accounts}
use actor_network.Ip.Hash.{has_l4, toeplitz_hash}
use actor_network.Ip.Header.{read_ip}
use actor_network.Ip.Receive.{
  after_merge, csum_ok, handle_fragment, handle_header, handle_received_packet, handle_trimmed,
  id_of, learn_sender, pass_up,
}
use actor_network.Ip.Receive.Steps.{
  WellFormed, armed-WellFormed, deliver-WellFormed, dropped-Accounts, erase-put,
  frag_limit_mem-WellFormed, learn_sender-WellFormed,
}
use actor_network.Merger.{merge}

abbrev IsGrown : Frag → Frag × ℕ → Type 0
IsGrown f (g, n) = (g.mem_size < 2 ^ 32) × (n ≡ sub32 g.mem_size f.mem_size)

frag_merge-IsGrown :
    (impl_size : ℕ) (h : IpHdr) (offset : ℕ) (p : List ℕ) (f : Frag)
    → Ensures (frag_merge impl_size h offset p f) (IsGrown f)
unfolding frag_merge
frag_merge-IsGrown impl_size h offset p f =
    Ensures-bind (λ l. Unit) (IsGrown f) (stored_header h offset p f) _ (Ensures_any _)
      (λ header u.
        Ensures-bind (λ t. Unit) (IsGrown f) (guard (leb (h.ihl * 4) (length p))) _ (Ensures_any _)
          (λ t v.
            Ensures-bind (λ m. Unit) (IsGrown f) (merge offset (drop (h.ihl * 4) p) f.ip_data) _
              (Ensures_any _) (λ merged x. (omega arith, refl))))

-- Passing a datagram on leaves the table alone.
abbrev passed_on : Ipv4 → List Delivery → List (ℕ × List ℕ) → Ipv4
passed_on s ds fw = record s { deliveries = ds; forwarded = fw }

abbrev IsPassedOn : Ipv4 → Ipv4 → Type 0
IsPassedOn s s' = (ds : List Delivery) × (fw : List (ℕ × List ℕ)) × (s' ≡ passed_on s ds fw)

module _ (env : IpEnv) where
  pass_up-IsPassedOn :
      (h : IpHdr) (source : ℕ) (f : Frag) (s : Ipv4)
      → Ensures (pass_up env h source f s) (IsPassedOn s)
  unfolding pass_up
  pass_up-IsPassedOn h source f s =
      Ensures-if (IsPassedOn s) (has_l4 h.ip_proto) _ _
        (Ensures-bind (λ n. Unit) (IsPassedOn s) (toeplitz_hash env.rss_key _) _ (Ensures_any _)
          (λ hash u.
            Ensures-if (IsPassedOn s) (env.hash2cpu hash == env.this_shard) _ _ (_, _, refl)
              (Ensures-bind (λ n. Unit) (IsPassedOn s)
                (get_assembled_packet env source env.hw_address f) _ (Ensures_any _)
                (λ pkt v. (_, _, refl)))))
        (_, _, refl)

  module _ (h : IpHdr) (source now : ℕ) (f : Frag) (s : Ipv4) (small : f.mem_size < 2 ^ 32)
      (w : WellFormed s) where
    -- The state when `f` has been merged into the table of `s`.
    abbrev entered : Ipv4
    entered = record s {
      frags = put_frag (id_of h) f s.frags;
      frags_age = aged (id_of h) (frag_of s.frags (id_of h)) s.frags_age;
      frag_mem = (s.frag_mem + sub32 f.mem_size (frag_of s.frags (id_of h)).mem_size) % 2 ^ 32;
    }

    -- When it has been dropped again.
    abbrev dropped : Ipv4 → Ipv4
    dropped t = record (frag_drop (id_of h) f.mem_size t) {
      frags_age = remove_id (id_of h) t.frags_age;
    }

    dropped-WellFormed :
        (ds : List Delivery) (fw : List (ℕ × List ℕ))
        → WellFormed (dropped (passed_on entered ds fw))
    unfolding frag_drop
    dropped-WellFormed ds fw = record {
      accounts =
          dropped-Accounts (id_of h) f (passed_on entered ds fw)
            (frag_of-put_same s.frags (id_of h) f)
            (let a = put-Accounts (id_of h) f s small w.accounts in
              record { table = a.table; accounted = a.accounted; tracked = a.tracked });
      timed = elim w.timed [
        | inl e ↦ inl (
            erase-put s.frags (id_of h) f
            ∙ ap (λ m. erase_frag (erase_frag m (id_of h)) (id_of h)) e)
        | inr t ↦ inr t
      ];
    }

    after_merge-WellFormed : Ensures (after_merge env h source now f entered) WellFormed
    unfolding after_merge
    after_merge-WellFormed =
        Ensures-if WellFormed (is_complete f) _ _
          (Ensures-bind (IsPassedOn entered) WellFormed (pass_up env h source f entered) _
            (pass_up-IsPassedOn h source f entered)
            (λ s' (ds, fw, e).
              subst (λ t. WellFormed (dropped t)) (sym e) (dropped-WellFormed ds fw)))
          (armed-WellFormed s.frag_timer now entered refl
            (put-Accounts (id_of h) f s small w.accounts))

  handle_fragment-WellFormed :
      (h : IpHdr) (p : List ℕ) (source now : ℕ) (s : Ipv4)
      → WellFormed s
      → Ensures (handle_fragment env h p source now s) WellFormed
  unfolding handle_fragment
  handle_fragment-WellFormed h p source now s w =
      let limited = frag_limit_mem s in
      let old = frag_of limited.frags (id_of h) in
      Ensures-bind (IsGrown old) WellFormed
        (frag_merge env.impl_size h (offset_of h) p (opened_frag h now old)) _
        (frag_merge-IsGrown env.impl_size h (offset_of h) p (opened_frag h now old))
        (λ r (small, e).
          rw e
            (after_merge-WellFormed h source now r.0 limited small (frag_limit_mem-WellFormed s w)))

  handle_trimmed-WellFormed :
      (h : IpHdr) (p : List ℕ) (source now : ℕ) (s : Ipv4)
      → WellFormed s
      → Ensures (handle_trimmed env h p source now s) WellFormed
  unfolding handle_trimmed
  handle_trimmed-WellFormed h p source now s w =
      let learnt = learn_sender h source s in
      let v = learn_sender-WellFormed h source s w in
      Ensures-if WellFormed (ltb ip_packet_len_max (offset_of h + length p)) _ _ w (
        Ensures-if WellFormed (env.filter h p source) _ _ v (
          Ensures-if WellFormed (not (h.dst_ip == s.host_address)) _ _ v (
            Ensures-if WellFormed (mf_of h || not (offset_of h == 0)) _ _
              (handle_fragment-WellFormed h p source now learnt v)
              (Ensures-if WellFormed (has_l4 h.ip_proto) _ _
                (Ensures-bind (λ u. Unit) WellFormed (guard (leb (h.ihl * 4) (length p))) _
                  (Ensures_any _) (λ u t. deliver-WellFormed h (drop (h.ihl * 4) p) learnt v))
                v))))

  -- Whatever packet comes, if the handler fails no assertion, the state is well formed when it was so
  -- before: the table has every datagram once, the list of ages names each of them, the memory counted
  -- is the sum of their sizes modulo 2 ^ 32, and the timer runs while there is one.
  pub handle_received_packet-WellFormed :
      (reassembled : Bool) (p : List ℕ) (source now : ℕ) (s : Ipv4)
      → WellFormed s
      → Ensures (handle_received_packet env reassembled p source now s) WellFormed
  unfolding handle_received_packet
  handle_received_packet-WellFormed reassembled p source now s w = by_header (read_ip env.be p)
    where
      by_header :
          (o : Option IpHdr) → Ensures (handle_header env o reassembled p source now s) WellFormed
      by_header none = w
      by_header (some h) =
          Ensures-bind (λ b. Unit) WellFormed (csum_ok env reassembled p) _ (Ensures_any _)
            (λ ok u.
              Ensures-if WellFormed (not ok || ltb (length p) h.len) _ _ w
                (handle_trimmed-WellFormed h (take h.len p) source now s w))
