-- ===== src/Merger/Segments.antt =====
-- The order of the segments, the offsets that they cover, and the stream that their bytes are cut
-- from.
use Prim.Native.Nat.add
use native.Mathlib.Nat.{add-zero}
use actor_network.Prelude.{
  List, [], ap, ap₂, arith, drop, length, length-append, length-drop, refl, suc, sym, zero, ℕ, ◌++◌,
  ◌+◌, ◌-◌, ◌<◌, ◌∙◌, ◌∷◌, ◌≡◌, ◌≤◌, ◌⊎◌,
}
use actor_network.Merger.{Segment, seg_end}

-- In order from `lo` on, with a gap after each segment.
abbrev pub Apart : ℕ → List Segment → Type 0
Apart lo [] = Unit
Apart lo (s ∷ m) = (lo ≤ s.beg) × Apart (seg_end s + 1) m

-- The keys increase from `lo` on.
abbrev pub KeysFrom : ℕ → List Segment → Type 0
KeysFrom lo [] = Unit
KeysFrom lo (s ∷ m) = (lo ≤ s.beg) × KeysFrom (s.beg + 1) m

abbrev pub InSegment : ℕ → ℕ → ℕ → Type 0
InSegment x b n = (b ≤ x) × (x < b + n)

-- The offset lies in one of the segments.
abbrev pub Covers : ℕ → List Segment → Type 0
Covers x [] = ⊥
Covers x (s ∷ m) = InSegment x s.beg (length s.bytes) ⊎ Covers x m

-- The `n` bytes of a stream from an offset on.
abbrev pub cut : (ℕ → ℕ) → ℕ → ℕ → List ℕ
cut stream b zero = []
cut stream b (suc n) = stream b ∷ cut stream (suc b) n

-- The bytes of every segment are those of the stream at its place.
abbrev pub Agrees : (ℕ → ℕ) → List Segment → Type 0
Agrees stream [] = Unit
Agrees stream (s ∷ m) = (s.bytes ≡ cut stream s.beg (length s.bytes)) × Agrees stream m

pub length-cut : (stream : ℕ → ℕ) (b n : ℕ) → length (cut stream b n) ≡ n
length-cut stream b zero = refl
length-cut stream b (suc n) = ap suc (length-cut stream (suc b) n)

pub cut-append :
    (stream : ℕ → ℕ) (b n k : ℕ) → cut stream b n ++ cut stream (b + n) k ≡ cut stream b (n + k)
cut-append stream b zero k = rw (add-zero b, add.zero k) refl
cut-append stream b (suc n) k = rw (add.suc n k) (
    ap (◌∷◌ (stream b)) (
      ap (λ l. cut stream (suc b) n ++ cut stream l k) (shift b n) ∙ cut-append stream (suc b) n k))
  where
    shift : (i j : ℕ) → i + suc j ≡ suc i + j
    shift i j = omega arith

pub drop-cut :
    (stream : ℕ → ℕ) (k b n : ℕ) → k ≤ n → drop k (cut stream b n) ≡ cut stream (b + k) (n - k)
drop-cut stream zero b n h = ap₂ (cut stream) (sym (add-zero b)) (minus_zero n)
  where
    minus_zero : (i : ℕ) → i ≡ i - 0
    minus_zero i = omega arith
drop-cut stream (suc k) b zero h = elim h [ ]
drop-cut stream (suc k) b (suc n) h =
    drop-cut stream k (suc b) n (omega arith) ∙ ap₂ (cut stream) (shift b k) (both n k)
  where
    shift : (i j : ℕ) → suc i + j ≡ i + suc j
    shift i j = omega arith

    both : (i j : ℕ) → i - j ≡ suc i - suc j
    both i j = omega arith

-- Joining a cut with the part of another that lies beyond it.
pub cut-joined :
    (stream : ℕ → ℕ) (b c : ℕ) (p q : List ℕ)
    → p ≡ cut stream b (length p)
    → q ≡ cut stream c (length q)
    → c ≤ b + length p
    → b + length p ≤ c + length q
    → p ++ drop (b + length p - c) q ≡ cut stream b (length (p ++ drop (b + length p - c) q))
cut-joined stream b c p q ep eq lo hi =
    joined
    ∙ ap (cut stream b) (
        sym (
          length-append p (drop (b + length p - c) q)
          ∙ ap (◌+◌ (length p)) (length-drop (b + length p - c) q ∙ remaining)))
  where
    remaining : length q - (b + length p - c) ≡ c + length q - (b + length p)
    remaining = omega arith

    tail_is : drop (b + length p - c) q ≡ cut stream (b + length p) (c + length q - (b + length p))
    tail_is =
        ap (drop (b + length p - c)) eq
        ∙ drop-cut stream (b + length p - c) c (length q) (omega arith)
        ∙ ap₂ (cut stream) (omega arith) remaining

    joined :
        p ++ drop (b + length p - c) q ≡ cut stream b (length p + (c + length q - (b + length p)))
    joined =
        ap₂ {A = List ℕ} ◌++◌ ep tail_is
        ∙ cut-append stream b (length p) (c + length q - (b + length p))
