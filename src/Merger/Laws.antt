-- ===== src/Merger/Laws.antt =====
-- `packet_merger::merge` as a whole.
use actor_network.Prelude.{
  Bool-cases, List, Returns, Returns-bind, Returns_map, [], arith, false, inl, inr, leb, length,
  ltb, ℕ, ◌&&◌, ◌+◌, ◌==◌, ◌↔◌, ◌∷◌, ◌≡◌, ◌≢◌, ◌≤◌,
}
use actor_network.Merger.{
  Merger, Scanned, Segment, covered, emplace, extended, finish, join, join_from, merge, pending,
  scan, seg_end,
}
use actor_network.Merger.Join.{Apart-weaken, IsJoined, join_from-IsJoined}
use actor_network.Merger.Scan.{
  Either, IsScanned, NotKey, around-IsPending, before-IsPending, behind-IsExtended,
  inside-IsScanned, keep-IsScanned,
}
use actor_network.Merger.Segments.{Agrees, Apart, Covers, KeysFrom, cut}

scan-IsScanned :
    (beg : ℕ) (p : List ℕ) (lo : ℕ) (m : List Segment)
    → Apart lo m
    → IsScanned beg p m lo (scan beg p m)
unfolding scan
scan-IsScanned beg p lo [] h = record {
  keys = tt;
  new_key = tt;
  covers = λ x. (λ c. c, λ c. c);
  agrees = λ stream e a. (e, a);
}
scan-IsScanned beg p lo (s ∷ m) h =
    elim (Bool-cases (leb s.beg beg && leb (beg + length p) (seg_end s))) [
      | inl e ↦ rw e (inside-IsScanned beg p s m lo h.0 h.1 (ground arith) (ground arith))
      | inr e ↦ rw e (elim (Bool-cases (leb beg s.beg && leb (seg_end s) (beg + length p))) [
        | inl d ↦ rw d (around-IsPending beg p s m lo h.0 h.1 (ground arith) (ground arith))
        | inr d ↦
            rw d
              (elim (Bool-cases
                (ltb beg s.beg && leb s.beg (beg + length p) && leb (beg + length p) (seg_end s))) [
                  | inl c ↦ rw c (
                      before-IsPending beg p s m lo h.0 h.1 (ground arith) (ground arith)
                        (ground arith))
                  | inr c ↦
                      rw c
                        (elim (Bool-cases (
                          leb s.beg beg
                          && leb beg (seg_end s)
                          && ltb (seg_end s) (beg + length p))) [
                            | inl b ↦ rw b (
                                behind-IsExtended beg p s m lo h.0 h.1 (ground arith) (ground arith)
                                  (ground arith))
                            | inr b ↦ rw b (
                                keep-IsScanned beg p s m lo (scan beg p m) h.0 (other e d)
                                  (scan-IsScanned beg p (seg_end s + 1) m h.1))
                          ])
                ])
      ])
    ]
  where
    -- A key equal to the offset falls under case 1 or 2.
    other :
        (leb s.beg beg && leb (beg + length p) (seg_end s)) ≡ false
        → (leb beg s.beg && leb (seg_end s) (beg + length p)) ≡ false
        → beg ≢ s.beg
    other e d = ground arith

-- Inserting under a new key.
record IsEmplaced (n : Segment) (m : List Segment) (lo : ℕ) (r : List Segment) : Type 0 where
  keys : KeysFrom lo r
  covers : (x : ℕ) → Covers x r ↔ Covers x (n ∷ m)
  agrees : (stream : ℕ → ℕ) → Agrees stream (n ∷ m) → Agrees stream r

emplace-IsEmplaced :
    (n : Segment) (m : List Segment) (lo : ℕ)
    → lo ≤ n.beg
    → KeysFrom lo m
    → NotKey n.beg m
    → IsEmplaced n m lo (emplace n m)
unfolding emplace
emplace-IsEmplaced n [] lo le h ne = record {
  keys = (le, tt);
  covers = λ x. (λ c. c, λ c. c);
  agrees = λ stream a. a;
}
emplace-IsEmplaced n (s ∷ m) lo le h ne = elim (Bool-cases (ltb n.beg s.beg)) [
  | inl e ↦ rw e (record {
    keys = (le, (ground arith, h.1));
    covers = λ x. (λ c. c, λ c. c);
    agrees = λ stream a. a;
  })
  | inr e ↦ rw (e, other) (behind e (emplace-IsEmplaced n m (s.beg + 1) (ground arith) h.1 ne.1))
]
  where
    other : (n.beg == s.beg) ≡ false
    other = ground (arith, ne.0)

    behind :
        ltb n.beg s.beg ≡ false
        → IsEmplaced n m (s.beg + 1) (emplace n m)
        → IsEmplaced n (s ∷ m) lo (s ∷ emplace n m)
    behind e t = record {
      keys = (h.0, t.keys);
      covers = λ x. ground (arith, t.covers x);
      agrees = λ stream a. let b = t.agrees stream (a.0, a.1.1) in (a.1.0, b);
    }

-- The same map with its segments joined.
record IsTidy (m r : List Segment) : Type 0 where
  apart : Apart 0 r
  covers : (x : ℕ) → Covers x r ↔ Covers x m
  agrees : (stream : ℕ → ℕ) → Agrees stream m → Agrees stream r

join-IsTidy : (m : List Segment) → KeysFrom 0 m → Returns (join m) (IsTidy m)
join-IsTidy [] h = record { apart = tt; covers = λ x. (λ c. c, λ c. c); agrees = λ stream a. a }
join-IsTidy (s ∷ m) h =
    Returns_map (IsJoined s m) _ (join_from s m) (join_from-IsJoined s m h.1) (λ r t. record {
      apart = Apart-weaken s.beg 0 r (omega arith) t.apart;
      covers = t.covers;
      agrees = t.agrees;
    })

-- What merging the packet `p` at `offset` makes of the map.
pub record IsMerged (offset : ℕ) (p : List ℕ) (m r : List Segment) : Type 0 where
  pub apart : Apart 0 r
  pub covers : (x : ℕ) → Covers x r ↔ Either x offset (length p) m
  pub agrees :
      (stream : ℕ → ℕ) → p ≡ cut stream offset (length p) → Agrees stream m → Agrees stream r

finish-IsMerged :
    (offset : ℕ) (p : List ℕ) (r : Merger) (out : Scanned)
    → Apart 0 r.map
    → IsScanned offset p r.map 0 out
    → Returns (finish offset out r) (λ r'. IsMerged offset p r.map r'.map)
finish-IsMerged offset p r covered h t = record {
  apart = h;
  covers = λ x. (inr, λ c. ground (arith, t x));
  agrees = λ stream e a. a;
}
finish-IsMerged offset p r (pending q m) h t =
    let placed =
      emplace-IsEmplaced (record { beg = offset; bytes = q }) m 0 (omega arith) t.keys t.new_key in
    Returns-bind (IsTidy _) (λ r'. IsMerged offset p r.map r'.map) (join _) _
      (join-IsTidy _ placed.keys)
      (λ k j. record {
        apart = j.apart;
        covers = λ x. ground (arith, j.covers x, placed.covers x, t.covers x);
        agrees = λ stream e a. j.agrees stream (placed.agrees stream (t.agrees stream e a));
      })
finish-IsMerged offset p r (extended m) h t =
    Returns-bind (IsTidy m) (λ r'. IsMerged offset p r.map r'.map) (join m) _ (join-IsTidy m t.keys)
      (λ k j. record {
        apart = j.apart;
        covers = λ x. ground (arith, j.covers x, t.covers x);
        agrees = λ stream e a. j.agrees stream (t.agrees stream e a);
      })

-- On a map whose segments are in order with gaps between them, merging a packet never aborts and
-- leaves such a map. It covers the offsets that the map or the packet covered, and no other. And if
-- the map and the packet are cut from one stream, then so are the bytes of every segment.
pub merge-IsMerged :
    (offset : ℕ) (p : List ℕ) (r : Merger)
    → Apart 0 r.map
    → Returns (merge offset p r) (λ r'. IsMerged offset p r.map r'.map)
unfolding merge
merge-IsMerged offset p r h =
    finish-IsMerged offset p r (scan offset p r.map) h (scan-IsScanned offset p 0 r.map h)
