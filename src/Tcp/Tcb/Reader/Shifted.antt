-- ===== src/Tcp/Tcb/Reader/Shifted.antt =====
-- The functions of the packet merger at sequence numbers are those at offsets, shifted.
use actor_network.Prelude.{
  Bool-cases, List, Option, [], ap, arith, drop, false, inl, inr, leb, length, length-append,
  length-drop, ltb, map, none, refl, some, true, ℕ, ◌&&◌, ◌++◌, ◌+◌, ◌-◌, ◌<◌, ◌≤◌, ◌==◌, ◌>>=◌,
  ◌^◌, ◌∙◌, ◌∷◌, ◌≡◌,
}
use actor_network.Merger.{Segment}
use actor_network.Merger.{
  seg_end as fragment_end, Scanned as FragmentScanned, covered as fragment_covered,
  pending as fragment_pending, extended as fragment_extended, keep as fragment_keep,
  scan as fragment_scan, emplace as fragment_emplace, join_from as fragment_join_from,
  join as fragment_join,
}
use actor_network.Tcp.Seq.{TcpSeq, add}
use actor_network.Tcp.Seq.Order.{add-add, diff-add, seq_le-add, seq_lt-add}
use actor_network.Tcp.Tcb.Reader.OutOfOrder.{
  Scanned, Seg, covered, emplace, extended, join, join_from, keep, pending, scan,
}

abbrev pub Below : List Segment → Type 0
Below [] = Unit
Below (s ∷ m) = (fragment_end s < 2 ^ 31) × Below m

module _ (start : TcpSeq) where
  -- A segment at an offset from the number `start`.
  abbrev pub at_seq : Segment → Seg
  at_seq s = (add start s.beg, s.bytes)

  abbrev pub lift_scanned : FragmentScanned → Scanned
  lift_scanned fragment_covered = covered
  lift_scanned (fragment_pending p m) = pending p (map at_seq m)
  lift_scanned (fragment_extended m) = extended (map at_seq m)

  abbrev pub lift_map : Option (List Segment) → Option (List Seg)
  lift_map none = none
  lift_map (some m) = some (map at_seq m)

  keep-lift_scanned :
      (s : Segment) (r : FragmentScanned)
      → keep (at_seq s) (lift_scanned r) ≡ lift_scanned (fragment_keep s r)
  keep-lift_scanned s fragment_covered = refl
  keep-lift_scanned s (fragment_pending p m) = refl
  keep-lift_scanned s (fragment_extended m) = refl

  pub scan-refines :
      (beg : ℕ) (p : List ℕ) (m : List Segment)
      → beg + length p < 2 ^ 31
      → Below m
      → scan (add start beg) p (map at_seq m) ≡ lift_scanned (fragment_scan beg p m)
  unfolding scan fragment_scan
  scan-refines beg p [] h b = refl
  scan-refines beg p (s ∷ m) h b =
      let end = beg + length p in
      let s_end = fragment_end s in
      let rest =
        ap (keep (at_seq s)) (scan-refines beg p m h b.1)
        ∙ keep-lift_scanned s (fragment_scan beg p m) in
      rw
        (
          add-add start beg (length p),
          add-add start s.beg (length s.bytes),
          seq_le-add start s.beg beg (omega (arith, b.0)) (omega arith),
          seq_le-add start end s_end h b.0,
          seq_le-add start beg s.beg (omega arith) (omega (arith, b.0)),
          seq_le-add start s_end end b.0 h,
          seq_lt-add start beg s.beg (omega arith) (omega (arith, b.0)),
          seq_le-add start s.beg end (omega (arith, b.0)) h,
          seq_le-add start beg s_end (omega arith) b.0,
          seq_lt-add start s_end end b.0 h,
        )
        (elim (Bool-cases (leb s.beg beg && leb end s_end)) [
          | inl e ↦ rw e refl
          | inr e ↦ elim (Bool-cases (leb beg s.beg && leb s_end end)) [
            | inl f ↦ rw (e, f) refl
            | inr f ↦ elim (Bool-cases (ltb beg s.beg && leb s.beg end && leb end s_end)) [
              | inl g ↦
                  rw (e, f, g)
                    (ap (λ n. pending (p ++ drop n s.bytes) (map at_seq m))
                      (diff-add start s.beg end (ground (arith, g)) h))
              | inr g ↦ elim (Bool-cases (leb s.beg beg && leb beg s_end && ltb s_end end)) [
                | inl k ↦
                    rw (e, f, g, k)
                      (ap (λ n. extended ((add start s.beg, s.bytes ++ drop n p) ∷ map at_seq m))
                        (diff-add start beg s_end (ground (arith, k)) b.0))
                | inr k ↦ rw (e, f, g, k) rest
              ]
            ]
          ]
        ])

  pub emplace-refines :
      (s : Segment) (m : List Segment)
      → fragment_end s < 2 ^ 31
      → Below m
      → emplace (at_seq s) (map at_seq m) ≡ map at_seq (fragment_emplace s m)
  unfolding emplace fragment_emplace
  emplace-refines s [] h b = refl
  emplace-refines s (n ∷ m) h b =
      let rest = ap (◌∷◌ (at_seq n)) (emplace-refines s m h b.1) in
      rw
        (
          seq_lt-add start s.beg n.beg (omega (arith, h)) (omega (arith, b.0)),
          seq_lt-add start n.beg s.beg (omega (arith, b.0)) (omega (arith, h)),
        )
        (elim (Bool-cases (ltb s.beg n.beg)) [
          | inl e ↦ rw e refl
          | inr e ↦ elim (Bool-cases (s.beg == n.beg)) [
            | inl f ↦ let g : ltb n.beg s.beg ≡ false = ground (arith, f) in rw (e, f, g) refl
            | inr f ↦ let g : ltb n.beg s.beg ≡ true = ground (arith, e, f) in rw (e, f, g) rest
          ]
        ])

  pub emplace-Below :
      (s : Segment) (m : List Segment)
      → fragment_end s < 2 ^ 31
      → Below m
      → Below (fragment_emplace s m)
  unfolding fragment_emplace
  emplace-Below s [] h b = (h, tt)
  emplace-Below s (n ∷ m) h b =
      let rest = emplace-Below s m h b.1 in
      elim (Bool-cases (ltb s.beg n.beg)) [
        | inl e ↦ rw e (h, b)
        | inr e ↦ elim (Bool-cases (s.beg == n.beg)) [
          | inl f ↦ rw (e, f) b
          | inr f ↦ rw (e, f) (b.0, rest)
        ]
      ]

  then_lifted :
      (s : Segment) (o : Option (List Segment))
      → (lift_map o >>= λ rest. some (at_seq s ∷ rest)) ≡ lift_map (o >>= λ rest. some (s ∷ rest))
  then_lifted s none = refl
  then_lifted s (some rest) = refl

  join_from-refines :
      (s : Segment) (m : List Segment)
      → fragment_end s < 2 ^ 31
      → Below m
      → join_from (at_seq s) (map at_seq m) ≡ lift_map (fragment_join_from s m)
  unfolding join_from fragment_join_from
  join_from-refines s [] h b = refl
  join_from-refines s (n ∷ m) h b =
      let s_end = fragment_end s in
      let n_end = fragment_end n in
      let grown = record s { bytes = s.bytes ++ drop (s_end - n.beg) n.bytes } in
      let dropped = join_from-refines s m h b.1 in
      let apart =
        ap (λ o. o >>= λ rest. some (at_seq s ∷ rest)) (join_from-refines n m b.0 b.1)
        ∙ then_lifted s (fragment_join_from n m) in
      rw
        (
          add-add start s.beg (length s.bytes),
          add-add start n.beg (length n.bytes),
          seq_le-add start s.beg n.beg (omega (arith, h)) (omega (arith, b.0)),
          seq_le-add start n.beg s_end (omega (arith, b.0)) h,
          seq_lt-add start s_end n_end h b.0,
          seq_le-add start n_end s_end b.0 h,
          seq_lt-add start s_end n.beg h (omega (arith, b.0)),
        )
        (elim (Bool-cases (leb s.beg n.beg && leb n.beg s_end && ltb s_end n_end)) [
          | inl e ↦
              let (n_le, s_lt) : (n.beg ≤ s_end) × (s_end < n_end) = ground (arith, e) in
              let small : fragment_end grown < 2 ^ 31 = omega (
                arith,
                n_le,
                s_lt,
                b.0,
                length-append s.bytes (drop (s_end - n.beg) n.bytes),
                length-drop (s_end - n.beg) n.bytes,
              ) in
              rw (e, diff-add start n.beg s_end n_le h) (join_from-refines grown m small b.1)
          | inr e ↦ elim (Bool-cases (leb n_end s_end)) [
            | inl f ↦ rw (e, f) dropped
            | inr f ↦ elim (Bool-cases (ltb s_end n.beg)) [
              | inl g ↦ rw (e, f, g) apart
              | inr g ↦ rw (e, f, g) refl
            ]
          ]
        ])

  pub join-refines : (m : List Segment) → Below m → join (map at_seq m) ≡ lift_map (fragment_join m)
  join-refines [] b = refl
  join-refines (s ∷ m) b = join_from-refines s m b.0 b.1
