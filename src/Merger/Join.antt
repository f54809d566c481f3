-- ===== src/Merger/Join.antt =====
-- The second loop separates segments that come in key order, and never aborts.
use actor_network.Prelude.{
  Bool-cases, List, Returns, Returns-bind, Returns_map, [], arith, drop, false, inl, inr, leb,
  leb→le, length-append, length-drop, ltb, ltb→lt, true, ℕ, ◌&&◌, ◌++◌, ◌+◌, ◌-◌, ◌<◌, ◌↔◌, ◌∷◌,
  ◌≡◌, ◌≤◌,
}
use actor_network.Merger.{Segment, join_from, seg_end}
use actor_network.Merger.Segments.{Agrees, Apart, Covers, KeysFrom, cut-joined}

-- The map after joining `m` into the segment `s` before it.
pub record IsJoined (s : Segment) (m r : List Segment) : Type 0 where
  pub apart : Apart s.beg r
  pub covers : (x : ℕ) → Covers x r ↔ Covers x (s ∷ m)
  pub agrees : (stream : ℕ → ℕ) → Agrees stream (s ∷ m) → Agrees stream r

pub KeysFrom-weaken : (a b : ℕ) (m : List Segment) → b ≤ a → KeysFrom a m → KeysFrom b m
KeysFrom-weaken a b [] le h = tt
KeysFrom-weaken a b (s ∷ m) le h = (omega arith, h.1)

pub Apart-weaken : (a b : ℕ) (m : List Segment) → b ≤ a → Apart a m → Apart b m
Apart-weaken a b [] le h = tt
Apart-weaken a b (s ∷ m) le h = (omega arith, h.1)

-- The first segment with the part of the second that lies behind it.
abbrev pub merged : Segment → Segment → Segment
merged s n = record s { bytes = s.bytes ++ drop (seg_end s - n.beg) n.bytes }

pub seg_end-merged :
    (s n : Segment) → n.beg ≤ seg_end s → seg_end s ≤ seg_end n → seg_end (merged s n) ≡ seg_end n
seg_end-merged s n h k = omega (
  arith,
  length-append s.bytes (drop (seg_end s - n.beg) n.bytes),
  length-drop (seg_end s - n.beg) n.bytes,
)

merged-IsJoined :
    (s n : Segment) (m r : List Segment)
    → s.beg ≤ n.beg
    → n.beg ≤ seg_end s
    → seg_end s < seg_end n
    → IsJoined (merged s n) m r
    → IsJoined s (n ∷ m) r
merged-IsJoined s n m r lo hi more t = record {
  apart = t.apart;
  covers = λ x. ground (arith, t.covers x, seg_end-merged s n hi (omega arith));
  agrees = λ stream h.
      t.agrees stream
        (cut-joined stream s.beg n.beg s.bytes n.bytes h.0 h.1.0 hi (omega arith), h.1.1);
}

dropped-IsJoined :
    (s n : Segment) (m r : List Segment)
    → s.beg ≤ n.beg
    → seg_end n ≤ seg_end s
    → IsJoined s m r
    → IsJoined s (n ∷ m) r
dropped-IsJoined s n m r lo hi t = record {
  apart = t.apart;
  covers = λ x. ground (arith, t.covers x);
  agrees = λ stream h. t.agrees stream (h.0, h.1.1);
}

apart-IsJoined :
    (s n : Segment) (m r : List Segment)
    → seg_end s < n.beg
    → IsJoined n m r
    → IsJoined s (n ∷ m) (s ∷ r)
apart-IsJoined s n m r gap t = record {
  apart = (omega arith, Apart-weaken n.beg (seg_end s + 1) r (omega arith) t.apart);
  covers = λ x. ground (arith, t.covers x);
  agrees = λ stream h. (h.0, t.agrees stream h.1);
}

pub join_from-IsJoined :
    (s : Segment) (m : List Segment)
    → KeysFrom (s.beg + 1) m
    → Returns (join_from s m) (IsJoined s m)
unfolding join_from
join_from-IsJoined s [] h = record {
  apart = omega arith;
  covers = λ x. (λ c. c, λ c. c);
  agrees = λ stream a. a;
}
join_from-IsJoined s (n ∷ m) h =
    elim (Bool-cases (leb s.beg n.beg && leb n.beg (seg_end s) && ltb (seg_end s) (seg_end n))) [
      | inl e ↦ rw e (
          Returns_map (IsJoined (merged s n) m) _ (join_from (merged s n) m)
            (join_from-IsJoined (merged s n) m
              (KeysFrom-weaken (n.beg + 1) (s.beg + 1) m (omega arith) h.1))
            (λ r t. merged-IsJoined s n m r (omega arith) (ground arith) (ground arith) t))
      | inr e ↦ rw e (elim (Bool-cases (leb (seg_end n) (seg_end s))) [
        | inl d ↦ rw d (
            Returns_map (IsJoined s m) _ (join_from s m)
              (join_from-IsJoined s m (KeysFrom-weaken (n.beg + 1) (s.beg + 1) m (omega arith) h.1))
              (λ r t. dropped-IsJoined s n m r (omega arith) (leb→le _ _ d) t))
        | inr d ↦
            rw (d, gap e d)
              (Returns-bind (IsJoined n m) _ (join_from n m) _ (join_from-IsJoined n m h.1)
                (λ r t. apart-IsJoined s n m r (ltb→lt _ _ (gap e d)) t))
      ])
    ]
  where
    gap :
        (leb s.beg n.beg && leb n.beg (seg_end s) && ltb (seg_end s) (seg_end n)) ≡ false
        → leb (seg_end n) (seg_end s) ≡ false
        → ltb (seg_end s) n.beg ≡ true
    gap e d = ground (arith, h.0)
