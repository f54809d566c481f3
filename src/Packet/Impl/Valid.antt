-- ===== src/Packet/Impl/Valid.antt =====
-- What a packet holds, and the representation invariant of `packet::impl`.
use actor_network.Prelude.{List, [], length, ℕ, ◌++◌, ◌+◌, ◌<◌, ◌^◌, ◌∷◌, ◌≡◌, ◌≤◌}
use actor_network.Packet.Impl.{
  Base, Fragment, Packet, external, internal, internal_data_size, nr_frags, size,
}

-- The bytes of a fragment array, in order: what the packet stands for.
abbrev pub contents : List Fragment → List ℕ
contents [] = []
contents (f ∷ fs) = f.bytes ++ contents fs

-- Where the first fragment stands in `_data`, the headroom is all that lies below it.
abbrev pub FirstAt : ℕ → Base → ℕ → Type 0
FirstAt headroom (internal o) n = (o ≡ headroom) × (o + n ≤ internal_data_size)
FirstAt headroom external n = headroom ≡ internal_data_size

-- Only the first fragment may use `_data`; an empty one may point to its end.
abbrev pub LaterAt : Base → ℕ → Type 0
LaterAt (internal o) n = (o ≡ internal_data_size) × (n ≡ 0)
LaterAt external n = Unit {0}

abbrev pub AllLater : List Fragment → Type 0
AllLater [] = Unit
AllLater (f ∷ fs) = LaterAt f.base (size f) × AllLater fs

abbrev pub Anchored : ℕ → List Fragment → Type 0
Anchored headroom [] = headroom ≡ internal_data_size
Anchored headroom (f ∷ fs) = FirstAt headroom f.base (size f) × AllLater fs

-- The packet is well formed and holds the bytes `bs`.
pub record Holds (bs : List ℕ) (p : Packet) : Type 0 where
  pub bytes_are : contents p.frags ≡ bs
  pub len_is : p.len ≡ length bs
  pub len_fits : length bs < 2 ^ 32
  pub frags_fit : nr_frags p ≤ p.allocated
  pub anchored : Anchored p.headroom p.frags
