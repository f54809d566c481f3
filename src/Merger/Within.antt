-- ===== src/Merger/Within.antt =====
-- Merging keeps segments within a limit, and no shorter than the shortest that there were.
use actor_network.Prelude.{
  Bool-cases, Ensures, Ensures-bind, Ensures-if, Ensures-if_cases, List, Returns, Returns-Ensures,
  [], ap, arith, drop, inl, inr, leb, length, length-append, length-drop, ltb, ℕ, ◌&&◌, ◌++◌, ◌+◌,
  ◌-◌, ◌<◌, ◌==◌, ◌^◌, ◌∙◌, ◌∷◌, ◌≡◌, ◌≤◌,
}
use actor_network.Merger.{
  Merger, Scanned, Segment, covered, emplace, extended, finish, join, join_from, keep, merge,
  pending, scan, seg_end,
}
use actor_network.Merger.Laws.{IsMerged, merge-IsMerged}
use actor_network.Merger.Segments.{Apart}

-- At least `k` bytes, that end at `limit` at the latest.
abbrev pub InRange : ℕ → ℕ → Segment → Type 0
InRange k limit s = (k ≤ length s.bytes) × (s.beg + length s.bytes ≤ limit)

abbrev pub Within : ℕ → ℕ → List Segment → Type 0
Within k limit [] = Unit
Within k limit (s ∷ m) = InRange k limit s × Within k limit m

module _ (k limit : ℕ) where
  -- Joining a segment with the part of another that lies beyond it.
  joined-InRange :
      (b c : ℕ) (p q : List ℕ)
      → InRange k limit (record { beg = b; bytes = p })
      → InRange k limit (record { beg = c; bytes = q })
      → c ≤ b + length p
      → b + length p ≤ c + length q
      → InRange k limit (record { beg = b; bytes = p ++ drop (b + length p - c) q })
  joined-InRange b c p q h i lo hi =
      let n : length (p ++ drop (b + length p - c) q) ≡ length p + (length q - (b + length p - c)) =
        length-append p (drop (b + length p - c) q)
        ∙ ap (◌+◌ (length p)) (length-drop (b + length p - c) q) in
      (omega arith, omega arith)

  abbrev ScannedWithin : ℕ → Scanned → Type 0
  ScannedWithin beg covered = Unit
  ScannedWithin beg (pending p m) =
      InRange k limit (record { beg = beg; bytes = p }) × Within k limit m
  ScannedWithin beg (extended m) = Within k limit m

  keep-Within :
      (beg : ℕ) (s : Segment) (t : Scanned)
      → InRange k limit s
      → ScannedWithin beg t
      → ScannedWithin beg (keep s t)
  keep-Within beg s covered h i = tt
  keep-Within beg s (pending p m) h i = (i.0, (h, i.1))
  keep-Within beg s (extended m) h i = (h, i)

  scan-Within :
      (beg : ℕ) (p : List ℕ) (m : List Segment)
      → InRange k limit (record { beg = beg; bytes = p })
      → Within k limit m
      → ScannedWithin beg (scan beg p m)
  unfolding scan
  scan-Within beg p [] h w = (h, tt)
  scan-Within beg p (s ∷ m) h w =
      elim (Bool-cases (leb s.beg beg && leb (beg + length p) (seg_end s))) [
        | inl e ↦ rw e tt
        | inr e ↦ rw e (elim (Bool-cases (leb beg s.beg && leb (seg_end s) (beg + length p))) [
          | inl d ↦ rw d (h, w.1)
          | inr d ↦
              rw d
                (elim (Bool-cases (
                  ltb beg s.beg
                  && leb s.beg (beg + length p)
                  && leb (beg + length p) (seg_end s))) [
                    | inl c ↦ rw c (
                      joined-InRange beg s.beg p s.bytes h w.0 (ground arith) (ground arith),
                      w.1,
                    )
                    | inr c ↦
                        rw c
                          (elim (Bool-cases (
                            leb s.beg beg
                            && leb beg (seg_end s)
                            && ltb (seg_end s) (beg + length p))) [
                              | inl b ↦ rw b (
                                joined-InRange s.beg beg s.bytes p w.0 h (ground arith)
                                    (ground arith),
                                w.1,
                              )
                              | inr b ↦
                                  rw b (
                                    keep-Within beg s (scan beg p m) w.0
                                      (scan-Within beg p m h w.1))
                            ])
                  ])
        ])
      ]

  emplace-Within :
      (n : Segment) (m : List Segment)
      → InRange k limit n
      → Within k limit m
      → Within k limit (emplace n m)
  unfolding emplace
  emplace-Within n [] h w = (h, tt)
  emplace-Within n (s ∷ m) h w = elim (Bool-cases (ltb n.beg s.beg)) [
    | inl e ↦ rw e (h, w)
    | inr e ↦ rw e (elim (Bool-cases (n.beg == s.beg)) [
      | inl d ↦ rw d w
      | inr d ↦ rw d (w.0, emplace-Within n m h w.1)
    ])
  ]

  join_from-Within :
      (s : Segment) (m : List Segment)
      → InRange k limit s
      → Within k limit m
      → Ensures (join_from s m) (Within k limit)
  unfolding join_from
  join_from-Within s [] h w = (h, tt)
  join_from-Within s (n ∷ m) h w =
      Ensures-if_cases (Within k limit)
        (leb s.beg n.beg && leb n.beg (seg_end s) && ltb (seg_end s) (seg_end n)) _ _
        (λ e.
          join_from-Within _ m
            (joined-InRange s.beg n.beg s.bytes n.bytes h w.0 (ground arith) (ground arith)) w.1)
        (λ e.
          Ensures-if (Within k limit) (leb (seg_end n) (seg_end s)) _ _ (join_from-Within s m h w.1)
            (Ensures-if (Within k limit) (ltb (seg_end s) n.beg) _ _
              (Ensures-bind (Within k limit) (Within k limit) (join_from n m) _
                (join_from-Within n m w.0 w.1) (λ rest i. (h, i)))
              tt))

  join-Within : (m : List Segment) → Within k limit m → Ensures (join m) (Within k limit)
  join-Within [] w = tt
  join-Within (s ∷ m) w = join_from-Within s m w.0 w.1

  finish-Within :
      (offset : ℕ) (t : Scanned) (r : Merger)
      → ScannedWithin offset t
      → Within k limit r.map
      → Ensures (finish offset t r) (λ r'. Within k limit r'.map)
  finish-Within offset covered r i w = w
  finish-Within offset (pending p m) r i w =
      Ensures-bind (Within k limit) (λ r'. Within k limit r'.map) (join _) _
        (join-Within _ (emplace-Within _ m i.0 i.1)) (λ j h. h)
  finish-Within offset (extended m) r i w =
      Ensures-bind (Within k limit) (λ r'. Within k limit r'.map) (join m) _ (join-Within m i)
        (λ j h. h)

  -- When the packet and every segment have at least `k` bytes and end at `limit` at the latest, so it is
  -- after the merge.
  pub merge-Within :
      (offset : ℕ) (p : List ℕ) (r : Merger)
      → InRange k limit (record { beg = offset; bytes = p })
      → Within k limit r.map
      → Ensures (merge offset p r) (λ r'. Within k limit r'.map)
  unfolding merge
  merge-Within offset p r h w =
      finish-Within offset (scan offset p r.map) r (scan-Within offset p r.map h w) w

-- What `merge` leaves where offsets have 32 bits.
abbrev pub IsMerged32 : ℕ → List ℕ → List Segment → List Segment → Type 0
IsMerged32 offset p m m' = IsMerged offset p m m' × Within 0 (2 ^ 32 - 1) m'

-- On a map whose segments are in order with gaps between them, where these and the packet end below
-- 2 ^ 32, so that no 32-bit sum of the source wraps: merging the packet never aborts and leaves such a
-- map. It covers the offsets that the map or the packet covered, and no other. And if the map and the
-- packet are cut from one stream, then so are the bytes of every segment.
pub merge-IsMerged32 :
    (offset : ℕ) (p : List ℕ) (r : Merger)
    → Apart 0 r.map
    → offset + length p < 2 ^ 32
    → Within 0 (2 ^ 32 - 1) r.map
    → Returns (merge offset p r) (λ r'. IsMerged32 offset p r.map r'.map)
merge-IsMerged32 offset p r apart fits within =
    Returns-Ensures _ _ (merge offset p r) (merge-IsMerged offset p r apart)
      (merge-Within 0 (2 ^ 32 - 1) offset p r (omega arith, omega arith) within)
