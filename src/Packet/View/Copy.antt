-- ===== src/Packet/View/Copy.antt =====
-- Operations that keep what a packet holds.
use actor_network.Prelude.{
  Bool-cases, List, Returns, [], ap, arith, if◌then◌else◌, inl, inr, ltb, ltb→lt, map, max, refl,
  some, ℕ, ◌*◌, ◌++◌, ◌-◌, ◌<◌, ◌^◌, ◌∙◌, ◌∷◌, ◌≡◌, ◌≤◌,
}
use actor_network.Packet.Build.Fragments.{all_bytes}
use actor_network.Packet.Impl.{Fragment, Packet, allocate_if_needed, copy, nr_frags}
use actor_network.Packet.Impl.Laws.{allocate_if_needed_lem, copy_lem, grown, grown_room}
use actor_network.Packet.Impl.Valid.{Holds, contents}
use actor_network.Packet.View.{free_on_cpu, release, reserve}

-- Making room for fragments, copying a packet for another processor and releasing its buffers all
-- keep its bytes: the first two give a well-formed packet that holds them, the third one buffers
-- that are these bytes in order. The number of fragments asked for and the packet's own, doubled, are
-- counted in 16 bits.
pub copies-Holds :
    (n : ℕ) (bs : List ℕ) (p : Packet)
    → Holds bs p
    → 2 * max n (nr_frags p) < 2 ^ 16
    → Returns (reserve n p) (λ q. Holds bs q × (n ≤ q.allocated))
      × Returns (free_on_cpu p) (Holds bs)
      × (all_bytes (release p) ≡ bs)
unfolding reserve free_on_cpu release
copies-Holds n bs p v room = (reserved, copied, released p.frags ∙ v.bytes_are)
  where
    released : (fs : List Fragment) → all_bytes (map (λ f. f.bytes) fs) ≡ contents fs
    released [] = refl
    released (f ∷ fs) = ap (◌++◌ f.bytes) (released fs)

    reserved :
        Returns
          (if ltb (nr_frags p) n then allocate_if_needed p (n - nr_frags p) else some p)
          (λ q. Holds bs q × (n ≤ q.allocated))
    reserved = elim (Bool-cases (ltb (nr_frags p) n)) [
      | inl e ↦
          let lt : nr_frags p < n = ltb→lt _ _ e in
          rw (e, allocate_if_needed_lem p (n - nr_frags p) v.anchored (omega arith))
            (grown_Holds (omega (arith, grown_room p (n - nr_frags p))))
      | inr e ↦ rw e (v, ground (arith, v.frags_fit))
    ]
      where
        grown_Holds :
            n ≤ grown p (n - nr_frags p)
            → Holds bs (record p { allocated = grown p (n - nr_frags p) })
              × (n ≤ grown p (n - nr_frags p))
        grown_Holds le = (
          record {
            bytes_are = v.bytes_are;
            len_is = v.len_is;
            len_fits = v.len_fits;
            frags_fit = omega (arith, grown_room p (n - nr_frags p));
            anchored = v.anchored;
          },
          le,
        )

    copied : Returns (copy p (nr_frags p)) (Holds bs)
    copied = rw (copy_lem p (nr_frags p) v.anchored (omega arith) (omega arith)) (record {
      bytes_are = v.bytes_are;
      len_is = v.len_is;
      len_fits = v.len_fits;
      frags_fit = omega arith;
      anchored = v.anchored;
    })
