-- ===== src/Merger/Scan.antt =====
-- The first loop: the packet and the map that it leaves cover together what they covered before.
use actor_network.Prelude.{
  List, [], arith, drop, inl, inr, length, ℕ, ◌++◌, ◌+◌, ◌-◌, ◌<◌, ◌↔◌, ◌∷◌, ◌≡◌, ◌≢◌, ◌≤◌, ◌⊎◌,
}
use actor_network.Merger.{Scanned, Segment, covered, extended, keep, pending, seg_end}
use actor_network.Merger.Join.{KeysFrom-weaken, merged, seg_end-merged}
use actor_network.Merger.Segments.{Agrees, Apart, Covers, InSegment, KeysFrom, cut, cut-joined}

abbrev pub NotKey : ℕ → List Segment → Type 0
NotKey b [] = Unit
NotKey b (s ∷ m) = (b ≢ s.beg) × NotKey b m

KeysFrom-NotKey : (b lo : ℕ) (m : List Segment) → b < lo → KeysFrom lo m → NotKey b m
KeysFrom-NotKey b lo [] lt h = tt
KeysFrom-NotKey b lo (s ∷ m) lt h = (omega arith, KeysFrom-NotKey b (s.beg + 1) m (omega arith) h.1)

Apart-KeysFrom : (lo : ℕ) (m : List Segment) → Apart lo m → KeysFrom lo m
Apart-KeysFrom lo [] h = tt
Apart-KeysFrom lo (s ∷ m) h = (
  h.0,
  KeysFrom-weaken (seg_end s + 1) (s.beg + 1) m (omega arith)
      (Apart-KeysFrom (seg_end s + 1) m h.1),
)

-- An offset of the packet or of the map.
abbrev pub Either : ℕ → ℕ → ℕ → List Segment → Type 0
Either x beg n m = InSegment x beg n ⊎ Covers x m

pub record IsPending (beg : ℕ) (p : List ℕ) (m : List Segment) (lo : ℕ) (q : List ℕ)
    (r : List Segment) : Type 0 where
  pub keys : KeysFrom lo r
  pub new_key : NotKey beg r
  pub covers : (x : ℕ) → Either x beg (length q) r ↔ Either x beg (length p) m
  pub agrees :
      (stream : ℕ → ℕ)
      → p ≡ cut stream beg (length p)
      → Agrees stream m
      → (q ≡ cut stream beg (length q)) × Agrees stream r

pub record IsExtended (beg : ℕ) (p : List ℕ) (m : List Segment) (lo : ℕ) (r : List Segment)
    : Type 0 where
  pub keys : KeysFrom lo r
  pub covers : (x : ℕ) → Covers x r ↔ Either x beg (length p) m
  pub agrees : (stream : ℕ → ℕ) → p ≡ cut stream beg (length p) → Agrees stream m → Agrees stream r

abbrev pub IsScanned : ℕ → List ℕ → List Segment → ℕ → Scanned → Type 0
IsScanned beg p m lo covered = (x : ℕ) → InSegment x beg (length p) → Covers x m
IsScanned beg p m lo (pending q r) = IsPending beg p m lo q r
IsScanned beg p m lo (extended r) = IsExtended beg p m lo r

pub keep-IsScanned :
    (beg : ℕ) (p : List ℕ) (s : Segment) (m : List Segment) (lo : ℕ) (r : Scanned)
    → lo ≤ s.beg
    → beg ≢ s.beg
    → IsScanned beg p m (seg_end s + 1) r
    → IsScanned beg p (s ∷ m) lo (keep s r)
keep-IsScanned beg p s m lo covered h ne t = λ x i. inr (t x i)
keep-IsScanned beg p s m lo (pending q r) h ne t = record {
  keys = (h, KeysFrom-weaken (seg_end s + 1) (s.beg + 1) r (omega arith) t.keys);
  new_key = (ne, t.new_key);
  covers = λ x. ground (arith, t.covers x);
  agrees = λ stream e a. let b = t.agrees stream e a.1 in (b.0, (a.0, b.1));
}
keep-IsScanned beg p s m lo (extended r) h ne t = record {
  keys = (h, KeysFrom-weaken (seg_end s + 1) (s.beg + 1) r (omega arith) t.keys);
  covers = λ x. ground (arith, t.covers x);
  agrees = λ stream e a. (a.0, t.agrees stream e a.1);
}

module _ (beg : ℕ) (p : List ℕ) (s : Segment) (m : List Segment) (lo : ℕ) (first : lo ≤ s.beg)
    (rest : Apart (seg_end s + 1) m) where
  abbrev pub packet : Segment
  packet = record { beg = beg; bytes = p }

  later : KeysFrom (seg_end s + 1) m
  later = Apart-KeysFrom (seg_end s + 1) m rest

  -- Case 1.
  pub inside-IsScanned :
      s.beg ≤ beg
      → beg + length p ≤ seg_end s
      → (x : ℕ) → InSegment x beg (length p)
      → Covers x (s ∷ m)
  inside-IsScanned h k x i = inl (omega arith)

  -- Case 2.
  pub around-IsPending : beg ≤ s.beg → seg_end s ≤ beg + length p → IsPending beg p (s ∷ m) lo p m
  around-IsPending h k = record {
    keys = KeysFrom-weaken (seg_end s + 1) lo m (omega arith) later;
    new_key = KeysFrom-NotKey beg (seg_end s + 1) m (omega arith) later;
    covers = λ x. ground arith;
    agrees = λ stream e a. (e, a.1);
  }

  -- Case 3.
  pub before-IsPending :
      beg < s.beg
      → s.beg ≤ beg + length p
      → beg + length p ≤ seg_end s
      → IsPending beg p (s ∷ m) lo (p ++ drop (beg + length p - s.beg) s.bytes) m
  before-IsPending h k l = record {
    keys = KeysFrom-weaken (seg_end s + 1) lo m (omega arith) later;
    new_key = KeysFrom-NotKey beg (seg_end s + 1) m (omega arith) later;
    covers = λ x. ground (arith, seg_end-merged packet s k l);
    agrees = λ stream e a. (cut-joined stream beg s.beg p s.bytes e a.0 k l, a.1);
  }

  -- Case 4.
  pub behind-IsExtended :
      s.beg ≤ beg
      → beg ≤ seg_end s
      → seg_end s < beg + length p
      → IsExtended beg p (s ∷ m) lo (merged s packet ∷ m)
  behind-IsExtended h k l = record {
    keys = (first, KeysFrom-weaken (seg_end s + 1) (s.beg + 1) m (omega arith) later);
    covers = λ x. ground (arith, seg_end-merged s packet k (omega arith));
    agrees = λ stream e a. (cut-joined stream s.beg beg s.bytes p a.0 e k (omega arith), a.1);
  }
