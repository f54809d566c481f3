-- ===== src/Packet/Impl/Laws.antt =====
-- Allocation and growth keep what a packet holds.
use actor_network.Prelude.{
  List, Returns, [], append_assoc, arith, if◌then◌else◌, leb, max, refl, some, true, ℕ, ◌*◌, ◌++◌,
  ◌+◌, ◌<◌, ◌^◌, ◌∷◌, ◌≡◌, ◌≤◌,
}
use actor_network.Packet.Impl.{
  Fragment, Packet, allocate, allocate_if_needed, copy, copy_internal_fragment, first_size,
  internal, internal_data_size, nr_frags, set_base, uses_data,
}
use actor_network.Packet.Impl.Valid.{Anchored, Holds, contents}

pub contents-append : (xs ys : List Fragment) → contents (xs ++ ys) ≡ contents xs ++ contents ys
contents-append [] ys = refl
contents-append (f ∷ xs) ys = simp (contents-append xs ys, append_assoc)

-- A fresh packet holds nothing and has room for at least the asked number of fragments.
pub allocate_lem :
    (n : ℕ)
    → n < 2 ^ 16
    → Returns
        (allocate n)
        (λ p. Holds [] p × (n ≤ p.allocated) × (p.frags ≡ []) × (p.headroom ≡ internal_data_size))
unfolding allocate
allocate_lem n h = ground arith

-- The capacity after room was made for `extra` more fragments.
abbrev pub grown : Packet → ℕ → ℕ
grown p extra =
    if leb (nr_frags p + extra) p.allocated
    then p.allocated
    else max (max (nr_frags p + extra) (2 * nr_frags p)) 4

Anchored-set_base :
    (h : ℕ) (fs : List Fragment)
    → Anchored h fs
    → uses_data fs ≡ true
    → (h + first_size fs ≤ internal_data_size) × (set_base (internal h) fs ≡ fs)
Anchored-set_base h [] v u = cc
Anchored-set_base h (f ∷ fs) v u = ground arith

-- The copied internal fragment lands where it was, since the headroom is its offset.
copy_internal_fragment_lem :
    (p : Packet)
    → Anchored p.headroom p.frags
    → (n : ℕ)
    → copy_internal_fragment p (record p { allocated = n }) ≡ some (record p { allocated = n })
unfolding copy_internal_fragment
copy_internal_fragment_lem p v n = ground (arith, Anchored-set_base p.headroom p.frags)

-- Copying a well-formed packet changes its capacity and nothing else.
pub copy_lem :
    (p : Packet) (n : ℕ)
    → Anchored p.headroom p.frags
    → n < 2 ^ 16
    → nr_frags p ≤ max n 4
    → copy p n ≡ some (record p { allocated = max n 4 })
unfolding copy
copy_lem p n v h le = ground (arith, copy_internal_fragment_lem p v (max n 4))

-- Growing a well-formed packet changes its capacity and nothing else.
pub allocate_if_needed_lem :
    (p : Packet) (extra : ℕ)
    → Anchored p.headroom p.frags
    → 2 * (nr_frags p + extra) < 2 ^ 16
    → allocate_if_needed p extra ≡ some (record p { allocated = grown p extra })
unfolding allocate_if_needed
allocate_if_needed_lem p extra v h = ground (arith, copy_internal_fragment_lem p v (grown p extra))

pub grown_room : (p : Packet) (extra : ℕ) → nr_frags p + extra ≤ grown p extra
grown_room p extra = ground arith
