-- ===== src/Packet/Build/Fragments.antt =====
-- Packets made of fragments that are not copied, and fragments added behind a packet.
use actor_network.Prelude.{
  List, Returns, Returns-bind, Returns_map, [], ap, append-nil, ap₂, arith, length, length-append,
  length-map, le→leb, lt→ltb, map, refl, ℕ, ◌%◌, ◌*◌, ◌++◌, ◌+◌, ◌<◌, ◌^◌, ◌∙◌, ◌∷◌, ◌≡◌, ◌≢◌, ◌≤◌,
}
use actor_network.Packet.Build.{append_fragment, from_fragments, outside, sum_len, with_frags}
use actor_network.Packet.Build.Laws.{Anchored-append, IsEmpty}
use actor_network.Packet.Impl.{Packet, allocate, nr_frags, push_back}
use actor_network.Packet.Impl.Laws.{
  allocate_if_needed_lem, allocate_lem, contents-append, grown, grown_room,
}
use actor_network.Packet.Impl.Valid.{AllLater, Holds, contents}
use actor_network.Packet.Trim.Back.{AllLater-Anchored}

AllLater-map_outside : (bs : List (List ℕ)) → AllLater (map outside bs)
AllLater-map_outside [] = tt
AllLater-map_outside (b ∷ bs) = (tt, AllLater-map_outside bs)

-- The bytes of all buffers, in order.
abbrev pub all_bytes : List (List ℕ) → List ℕ
all_bytes [] = []
all_bytes (b ∷ bs) = b ++ all_bytes bs

contents-map_outside : (bs : List (List ℕ)) → contents (map outside bs) ≡ all_bytes bs
contents-map_outside [] = refl
contents-map_outside (b ∷ bs) = ap (◌++◌ b) (contents-map_outside bs)

sum_len_lem :
    (acc : ℕ) (bs : List (List ℕ))
    → acc + length (all_bytes bs) < 2 ^ 32
    → sum_len acc bs ≡ acc + length (all_bytes bs)
unfolding sum_len
sum_len_lem acc [] h = omega arith
sum_len_lem acc (b ∷ bs) h = omega (
  arith,
  sum_len_lem ((acc + length b) % 2 ^ 32) bs (omega (arith, length-append b (all_bytes bs))),
  length-append b (all_bytes bs),
)

-- A packet of given buffers holds their bytes in a row, when they are counted in 32 bits and the
-- buffers in 16.
pub from_fragments-Holds :
    (bs : List (List ℕ))
    → length (all_bytes bs) < 2 ^ 32
    → length bs < 2 ^ 16
    → Returns (from_fragments bs) (Holds (all_bytes bs))
unfolding from_fragments
from_fragments-Holds bs fits few =
    Returns-bind _ _ (allocate (length bs)) _ (allocate_lem (length bs) few) (λ p h.
      rw (le→leb _ _ h.1) (record {
        bytes_are = contents-map_outside bs;
        len_is = omega (arith, sum_len_lem 0 bs (omega (arith, fits)));
        len_fits = fits;
        frags_fit = omega (arith, h.1, length-map bs outside);
        anchored = rw h.3 (AllLater-Anchored (map outside bs) (AllLater-map_outside bs));
      }))

-- A fragment added behind a well-formed packet that has a fragment is held behind its bytes. The
-- bytes are counted in 32 bits, and the fragments, doubled, in 16.
pub append_fragment-Holds :
    (bs bytes : List ℕ) (p : Packet)
    → Holds bs p
    → p.frags ≢ []
    → length bs + length bytes < 2 ^ 32
    → 2 * (nr_frags p + 1) < 2 ^ 16
    → Returns (append_fragment p bytes) (Holds (bs ++ bytes))
unfolding append_fragment push_back
append_fragment-Holds bs bytes p v ne fits room =
    rw
      (
        allocate_if_needed_lem p 1 v.anchored room,
        lt→ltb (nr_frags p) (grown p 1) (omega (arith, grown_room p 1)),
      )
      (record {
        bytes_are =
            contents-append p.frags (outside bytes ∷ []) ∙ ap₂ ◌++◌ v.bytes_are (append-nil bytes);
        len_is = omega (arith, v.len_is, length-append bs bytes);
        len_fits = omega (arith, length-append bs bytes);
        frags_fit = omega (arith, grown_room p 1, length-append p.frags (outside bytes ∷ []));
        anchored = Anchored-append p.headroom p.frags (outside bytes ∷ []) ne v.anchored (tt, tt);
      })

-- A packet made with room for some fragments is empty and has that room.
pub with_frags-IsEmpty :
    (n : ℕ) → n < 2 ^ 16 → Returns (with_frags n) (λ p. IsEmpty p × (n ≤ p.allocated))
unfolding with_frags
with_frags-IsEmpty n h =
    Returns_map _ _ (allocate n) (allocate_lem n h)
      (λ p w. (record { holds = w.0; no_frags = w.2; all_headroom = w.3 }, w.1))
