-- ===== src/Packet/Trim.antt =====
-- `trim_front` and `trim_back` of include/nil/actor/network/packet.hh.
pub mod Front
pub mod Back
pub mod Headroom
use actor_network.Prelude.{
  Bool, List, Option, [], drop, false, guard, if◌then◌else◌, leb, none, not, reverse, some, take,
  true, ℕ, ◌&&◌, ◌+◌, ◌-◌, ◌==◌, ◌>>=◌, ◌>>◌, ◌∷◌,
}
use actor_network.Packet.Impl.{
  Base, Fragment, Packet, external, internal, internal_data_size, size, uses_data,
}

-- The loop of both: whole fragments go while `how_much` covers them. `none` is a step past the end
-- of the array.
pub skip : ℕ → List Fragment → Option (ℕ × List Fragment)
skip how_much [] = if how_much == 0 then some (0, []) else none
skip how_much (f ∷ fs) =
    if not (how_much == 0) && leb (size f) how_much
    then skip (how_much - size f) fs
    else some (how_much, f ∷ fs)

abbrev raise : ℕ → Base → Base
raise n (internal o) = internal (o + n)
raise n external = external

-- `_frags[0].base += n; _frags[0].size -= n`.
abbrev cut_first : ℕ → List Fragment → List Fragment
cut_first n [] = []
cut_first n (f ∷ fs) = record { base = raise n f.base; bytes = drop n f.bytes } ∷ fs

-- The headroom after whole fragments went, and after the first was cut.
abbrev front_headroom : ℕ → ℕ → List Fragment → ℕ
front_headroom h n fs = if uses_data fs then h + n else internal_data_size

pub trim_front : ℕ → Packet → Option Packet
unfolding skip
trim_front how_much p = do
  guard (leb how_much p.len)
  (left, fs) ← skip how_much p.frags
  some (record p {
    len = p.len - how_much;
    headroom = front_headroom p.headroom left fs;
    frags = cut_first left fs;
  })

-- `_frags[i].size -= n`, on the last fragment.
abbrev cut_last : ℕ → List Fragment → List Fragment
cut_last n [] = []
cut_last n (f ∷ fs) = record f { bytes = take (size f - n) f.bytes } ∷ fs

abbrev is_single : List Fragment → Bool
is_single (f ∷ []) = true
is_single _ = false

-- The fragments are visited from the last one down.
pub trim_back : ℕ → Packet → Option Packet
unfolding skip
trim_back how_much p = do
  guard (leb how_much p.len)
  (left, rev) ← skip how_much (reverse p.frags)
  let rest = reverse (cut_last left rev)
  some (record p {
    len = p.len - how_much;
    headroom = if is_single rev && uses_data rest then p.headroom + left else p.headroom;
    frags = rest;
  })
