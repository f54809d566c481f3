-- ===== src/Tcp/Tcb/Reader/Refines.antt =====
-- The queue of segments out of order is the packet merger of IPv4 fragments, at sequence numbers.
use actor_network.Prelude.{
  Bool-cases, List, Option, Returns, [], ap, arith, drop, inl, inr, leb, length, length-append,
  length-drop, ltb, map, none, refl, some, subst, sym, ℕ, ◌%◌, ◌&&◌, ◌++◌, ◌+◌, ◌-◌, ◌<◌, ◌≤◌,
  ◌>>=◌, ◌^◌, ◌∙◌, ◌∷◌, ◌≡◌,
}
use actor_network.Merger.{Segment, Merger, merge}
use actor_network.Merger.{
  seg_end as fragment_end, Scanned as FragmentScanned, covered as fragment_covered,
  pending as fragment_pending, extended as fragment_extended, keep as fragment_keep,
  scan as fragment_scan, emplace as fragment_emplace, join as fragment_join,
  finish as fragment_finish,
}
use actor_network.Merger.Segments.{Apart}
use actor_network.Merger.Laws.{IsMerged, merge-IsMerged}
use actor_network.Tcp.Seq.{TcpSeq, add}
use actor_network.Tcp.Tcb.Reader.OutOfOrder.{finish, insert_out_of_order, join}
use actor_network.Tcp.Tcb.Reader.Shifted.{
  Below, at_seq, emplace-Below, emplace-refines, join-refines, lift_map, lift_scanned, scan-refines,
}

abbrev ScannedBelow : ℕ → FragmentScanned → Type 0
ScannedBelow beg fragment_covered = Unit
ScannedBelow beg (fragment_pending q m) = (beg + length q < 2 ^ 31) × Below m
ScannedBelow beg (fragment_extended m) = Below m

keep-ScannedBelow :
    (beg : ℕ) (s : Segment) (r : FragmentScanned)
    → fragment_end s < 2 ^ 31
    → ScannedBelow beg r
    → ScannedBelow beg (fragment_keep s r)
keep-ScannedBelow beg s fragment_covered h b = tt
keep-ScannedBelow beg s (fragment_pending q m) h b = (b.0, (h, b.1))
keep-ScannedBelow beg s (fragment_extended m) h b = (h, b)

length-append-drop :
    (n : ℕ) (xs ys : List ℕ) → length (xs ++ drop n ys) ≡ length xs + (length ys - n)
length-append-drop n xs ys = omega (arith, length-append xs (drop n ys), length-drop n ys)

scan-Below :
    (beg : ℕ) (p : List ℕ) (m : List Segment)
    → beg + length p < 2 ^ 31
    → Below m
    → ScannedBelow beg (fragment_scan beg p m)
unfolding fragment_scan
scan-Below beg p [] h b = (h, tt)
scan-Below beg p (s ∷ m) h b =
    let end = beg + length p in
    let s_end = fragment_end s in
    let rest = keep-ScannedBelow beg s (fragment_scan beg p m) b.0 (scan-Below beg p m h b.1) in
    elim (Bool-cases (leb s.beg beg && leb end s_end)) [
      | inl e ↦ rw e tt
      | inr e ↦ elim (Bool-cases (leb beg s.beg && leb s_end end)) [
        | inl f ↦ rw (e, f) (h, b.1)
        | inr f ↦ elim (Bool-cases (ltb beg s.beg && leb s.beg end && leb end s_end)) [
          | inl g ↦
              let (after, inside) : (s.beg ≤ end) × (end ≤ s_end) = ground (arith, g) in
              rw (e, f, g)
                (omega (arith, after, inside, b.0, length-append-drop (end - s.beg) p s.bytes), b.1)
          | inr g ↦ elim (Bool-cases (leb s.beg beg && leb beg s_end && ltb s_end end)) [
            | inl k ↦
                let (after, inside) : (beg ≤ s_end) × (s_end < end) = ground (arith, k) in
                rw (e, f, g, k)
                  (omega (arith, after, inside, h, length-append-drop (s_end - beg) s.bytes p), b.1)
            | inr k ↦ rw (e, f, g, k) rest
          ]
        ]
      ]
    ]

abbrev counted : ℕ → List Segment → Merger
counted n m = record { map = m; linearizations = n }

module _ (start : TcpSeq) where
  only_map :
      (n : ℕ) (o : Option (List Segment))
      → lift_map start o ≡ lift_map start (o >>= (λ m. some (counted n m)) >>= λ r. some r.map)
  only_map n none = refl
  only_map n (some m) = refl

  finish-refines :
      (offset : ℕ) (r : Merger) (out : FragmentScanned)
      → Below r.map
      → ScannedBelow offset out
      → finish (add start offset) (lift_scanned start out) (map (at_seq start) r.map)
        ≡ lift_map start (fragment_finish offset out r >>= λ r'. some r'.map)
  finish-refines offset r fragment_covered b c = refl
  finish-refines offset r (fragment_pending p m) b c =
      let s : Segment = record { beg = offset; bytes = p } in
      ap join (emplace-refines start s m c.0 c.1)
      ∙ join-refines start (fragment_emplace s m) (emplace-Below start s m c.0 c.1)
      ∙ only_map ((r.linearizations + 1) % 2 ^ 64) (fragment_join (fragment_emplace s m))
  finish-refines offset r (fragment_extended m) b c =
      join-refines start m c ∙ only_map ((r.linearizations + 1) % 2 ^ 64) (fragment_join m)

  insert-merge :
      (offset : ℕ) (p : List ℕ) (r : Merger)
      → offset + length p < 2 ^ 31
      → Below r.map
      → insert_out_of_order (add start offset) p (map (at_seq start) r.map)
        ≡ lift_map start (merge offset p r >>= λ r'. some r'.map)
  unfolding insert_out_of_order merge
  insert-merge offset p r h b =
      ap (λ out. finish (add start offset) out (map (at_seq start) r.map))
        (scan-refines start offset p r.map h b)
      ∙ finish-refines offset r (fragment_scan offset p r.map) b (scan-Below offset p r.map h b)

  lifted_result :
      (offset : ℕ) (p : List ℕ) (m : List Segment) (o : Option Merger)
      → Returns o (λ r. IsMerged offset p m r.map)
      → Returns
          (lift_map start (o >>= λ r'. some r'.map))
          (λ q. (s : List Segment) × (q ≡ map (at_seq start) s) × IsMerged offset p m s)
  lifted_result offset p m none v = elim v [ ]
  lifted_result offset p m (some r) v = (r.map, refl, v)

-- A segment out of order is put among those that wait, which are apart, without an abort: within 2 ^ 31 of the number
-- `start`, the queue at sequence numbers is, shifted, what the packet merger makes of the offsets. So
-- its segments are apart, they cover what was covered and the new data, and they agree with every
-- stream that the old ones and the new one agree with.
pub insert_out_of_order-merge :
    (start : TcpSeq) (offset : ℕ) (p : List ℕ) (m : List Segment)
    → offset + length p < 2 ^ 31
    → Below m
    → Apart 0 m
    → Returns
        (insert_out_of_order (add start offset) p (map (at_seq start) m))
        (λ q. (r : List Segment) × (q ≡ map (at_seq start) r) × IsMerged offset p m r)
insert_out_of_order-merge start offset p m h b apart =
    subst
      (λ o.
        Returns o (λ q. (r : List Segment) × (q ≡ map (at_seq start) r) × IsMerged offset p m r))
      (sym (insert-merge start offset p (counted 0 m) h b))
      (lifted_result start offset p m (merge offset p (counted 0 m))
        (merge-IsMerged offset p (counted 0 m) apart))
