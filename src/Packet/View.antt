-- ===== src/Packet/View.antt =====
-- `linearize` of src/network/packet.cc, and `get_header`, `share`, `release_into`, `reserve` and
-- `free_on_cpu` of include/nil/actor/network/packet.hh.
pub mod Linear
pub mod Header
pub mod Share
pub mod Copy
use actor_network.Prelude.{
  Bool, List, Option, [], drop, guard, if◌then◌else◌, leb, length, ltb, map, min, none, some, take,
  true, ℕ, ◌%◌, ◌&&◌, ◌++◌, ◌+◌, ◌-◌, ◌==◌, ◌>>=◌, ◌>>◌, ◌^◌, ◌∷◌,
}
use actor_network.Packet.Build.{empty, outside}
use actor_network.Packet.Impl.{
  Fragment, Packet, allocate_if_needed, copy, nr_frags, size, u32, unuse_internal_data,
}
use actor_network.Packet.Impl.Valid.{contents}
use actor_network.Packet.Trim.{skip}

-- The loop that counts fragments until their sizes reach `desired`: the bytes of those, and the
-- other fragments. `none` is a read past the end of the array.
pub gather : ℕ → List Fragment → Option (List ℕ × List Fragment)
gather desired [] = if desired == 0 then some ([], []) else none
gather desired (f ∷ fs) =
    let rest = gather (desired - size f) fs in
    if desired == 0
    then some ([], f ∷ fs)
    else (do (bytes, left) ← rest; some (f.bytes ++ bytes, left))

-- The tail is moved to the place after the new fragment. Where no fragment is collapsed it moves up
-- by one, which must fit the array, and `std::copy` may not be used if the two ranges overlap.
abbrev collapses : ℕ → ℕ → ℕ → ℕ → Bool
collapses desired number allocated left =
    if desired == 0 then ltb number allocated && ltb left 2 else true

-- `linearize(at_frag, desired_size)`, where `front` is the fragments below `at_frag`.
abbrev linearize_after : List Fragment → ℕ → List Fragment → Packet → Option Packet
linearize_after front desired fs p = do
  (bytes, left) ← gather desired fs
  guard (collapses desired (nr_frags p) p.allocated (length left))
  some (record p { frags = front ++ outside bytes ∷ left })

-- `linearize()`.
pub linearize : Packet → Option Packet
unfolding gather
linearize p = let q = unuse_internal_data p in linearize_after [] q.len q.frags q

-- The loop of `get_header`: the fragments before the one that holds `offset`, that one and those
-- after it, and the offset within it.
pub locate : ℕ → List Fragment → List Fragment × List Fragment × ℕ
locate offset [] = ([], [], offset)
locate offset (f ∷ fs) =
    let (front, rest, o) = locate (offset - size f) fs in
    if leb (size f) offset then (f ∷ front, rest, o) else ([], f ∷ fs, offset)

-- The bytes from `offset` on that a pointer into a fragment reaches.
abbrev window : ℕ → ℕ → List Fragment → Option (List ℕ)
window offset n [] = none
window offset n (f ∷ fs) = do guard (leb (offset + n) (size f)); some (take n (drop offset f.bytes))

-- The rest of `get_header`, once the fragment is found: `front` is the fragments below it.
abbrev header_in :
    ℕ → Packet → List Fragment → List Fragment → ℕ → Option (Packet × Option (List ℕ))
header_in n p front [] o = some (p, none)
header_in n p front (f ∷ fs) o =
    let q = unuse_internal_data p in
    if ltb (size f) (o + n)
    then (do
      r ← linearize_after (take (length front) q.frags) (o + n) (drop (length front) q.frags) q
      header ← window o n (drop (length front) r.frags)
      some (r, some header))
    else (do header ← window o n (f ∷ fs); some (p, some header))

-- `get_header(offset, size)`: the packet afterwards, and the header's bytes or `nullptr`.
pub get_header : ℕ → ℕ → Packet → Option (Packet × Option (List ℕ))
unfolding locate gather
get_header offset n p =
    if ltb p.len ((offset + n) % 2 ^ 64)
    then some (p, none)
    else (let (front, fs, o) = locate offset p.frags in header_in n p front fs o)

-- The second loop of `share` (its first is that of `trim_front`): `left` bytes are still to be shared, from `offset` in the first fragment.
pub slice : ℕ → ℕ → List Fragment → Option (List Fragment)
slice left offset [] = if left == 0 then some [] else none
slice left offset (f ∷ fs) =
    let fsize = min left (size f - offset) in
    let rest = slice (left - fsize) 0 fs in
    if left == 0
    then some []
    else (do gs ← rest; some (outside (take fsize (drop offset f.bytes)) ∷ gs))

-- `share(offset, len)`: this packet, and the new one.
pub share : ℕ → ℕ → Packet → Option (Packet × Packet)
unfolding slice
share offset n p = do
  let self = unuse_internal_data p
  fresh ← empty
  room ← allocate_if_needed fresh (nr_frags self)
  (o, fs) ← skip offset self.frags
  gs ← slice n o fs
  guard (leb (length gs) room.allocated)
  some (self, record room { len = u32 (length (contents gs)); frags = gs; offload = self.offload })

-- `reserve(n_frags)`.
pub reserve : ℕ → Packet → Option Packet
reserve n p = if ltb (nr_frags p) n then allocate_if_needed p (n - nr_frags p) else some p

-- `free_on_cpu`: the packet is copied; only its deleter differs.
pub free_on_cpu : Packet → Option Packet
free_on_cpu p = copy p (nr_frags p)

-- `release`: a buffer for each fragment.
pub release : Packet → List (List ℕ)
release p = map (λ f. f.bytes) p.frags
