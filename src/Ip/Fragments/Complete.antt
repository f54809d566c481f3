-- ===== src/Ip/Fragments/Complete.antt =====
-- When `is_complete` says that a datagram is complete, and what its data is then.
use actor_network.Prelude.{
  Bool, List, [], ap, arith, false, inl, inr, length, refl, true, ℕ, ◌&&◌, ◌+◌, ◌-◌, ◌<◌, ◌↔◌, ◌∙◌,
  ◌∷◌, ◌≡◌, ◌≤◌,
}
use actor_network.Ip.{Frag}
use actor_network.Ip.Fragments.{first_packet, is_complete, whole}
use actor_network.Ip.Fragments.Reassembly.{IsReassembling}
use actor_network.Merger.{Segment, seg_end}
use actor_network.Merger.Segments.{Agrees, Apart, Covers, cut}
use actor_network.Merger.Within.{Within}

Covers-above : (x lo : ℕ) (m : List Segment) → Apart lo m → Covers x m → lo ≤ x
Covers-above x lo [] h c = elim c [ ]
Covers-above x lo (s ∷ m) h (inl c) = omega arith
Covers-above x lo (s ∷ m) h (inr c) =
    let above : seg_end s + 1 ≤ x = Covers-above x (seg_end s + 1) m h.1 c in omega arith

module _ (len : ℕ) where
  -- A map that covers all of the datagram is one segment from 0 on.
  whole_of_covered :
      (m : List Segment)
      → Apart 0 m
      → Within 1 len m
      → 0 < len
      → ((x : ℕ) → x < len → Covers x m)
      → whole m ≡ true
  whole_of_covered [] h w pos c = elim (c 0 pos) [ ]
  whole_of_covered (s ∷ []) h w pos c = ground (arith, c 0 pos)
  whole_of_covered (s ∷ n ∷ m) h w pos c =
      elim (c (seg_end s) (omega (arith, h.1.0, w.1.0.0, w.1.0.1))) [
        | inl i ↦ let bad : ⊥ = omega arith in elim bad [ ]
        | inr i ↦
            let above : seg_end s + 1 ≤ seg_end s =
              Covers-above (seg_end s) (seg_end s + 1) (n ∷ m) h.1 i in
            let bad : ⊥ = omega arith in elim bad [ ]
      ]

  -- One segment from 0 on that has the last byte of the datagram is as long as the datagram.
  length_of_whole :
      (m : List Segment)
      → Within 1 len m
      → whole m ≡ true
      → Covers (len - 1) m
      → length (first_packet m) ≡ len
  length_of_whole [] w e c = elim c [ ]
  length_of_whole (s ∷ []) w e (inl c) = ground (arith, w.0.0, w.0.1)
  length_of_whole (s ∷ []) w e (inr c) = elim c [ ]
  length_of_whole (s ∷ n ∷ m) w e c = cc

  covered_of_whole :
      (m : List Segment) → whole m ≡ true → (x : ℕ) → x < length (first_packet m) → Covers x m
  covered_of_whole [] e x h = cc
  covered_of_whole (s ∷ []) e x h = inl (ground arith)
  covered_of_whole (s ∷ n ∷ m) e x h = cc

  first_packet-cut :
      (stream : ℕ → ℕ) (m : List Segment)
      → Agrees stream m
      → whole m ≡ true
      → first_packet m ≡ cut stream 0 (length (first_packet m))
  first_packet-cut stream [] a e = cc
  first_packet-cut stream (s ∷ []) a e =
      let at_zero : s.beg ≡ 0 = ground arith in
      a.0 ∙ ap (λ b. cut stream b (length s.bytes)) at_zero
  first_packet-cut stream (s ∷ n ∷ m) a e = cc

both_true : (a b : Bool) → (a && b) ≡ true → (a ≡ true) × (b ≡ true)
both_true true true e = (refl, refl)
both_true true false e = cc
both_true false b e = cc

-- A datagram in the course of its reassembly is complete exactly when all of its bytes have come, in
-- whatever order, pieces and repetitions.
pub is_complete_iff :
    (stream : ℕ → ℕ) (len : ℕ) (f : Frag)
    → 0 < len
    → IsReassembling stream len f
    → (is_complete f ≡ true) ↔ ((x : ℕ) → x < len → Covers x f.ip_data.map)
unfolding is_complete
is_complete_iff stream len f pos w = (
  λ e x h.
      let (last, one) = both_true f.last_frag_received (whole f.ip_data.map) e in
      covered_of_whole len f.ip_data.map one x
        (omega (arith, length_of_whole len f.ip_data.map w.within one (w.last_is.0 last))),
  λ c.
      rw
        (
          w.last_is.1 (c (len - 1) (omega arith)),
          whole_of_covered len f.ip_data.map w.apart w.within pos c,
        )
        refl,
)

-- The data of a datagram that is complete is the datagram.
pub first_packet-is_complete :
    (stream : ℕ → ℕ) (len : ℕ) (f : Frag)
    → IsReassembling stream len f
    → is_complete f ≡ true
    → first_packet f.ip_data.map ≡ cut stream 0 len
unfolding is_complete
first_packet-is_complete stream len f w e =
    let (last, one) = both_true f.last_frag_received (whole f.ip_data.map) e in
    first_packet-cut len stream f.ip_data.map w.agrees one
    ∙ ap (cut stream 0) (length_of_whole len f.ip_data.map w.within one (w.last_is.0 last))
