-- ===== src/Packet/Build.antt =====
-- The constructors of `packet` (include/nil/actor/network/packet.hh): building, appending and
-- prepending. Where the code leaves header memory uninitialised for its caller to write, `fill` is
-- what the caller writes.
pub mod Laws
pub mod Prepend
pub mod Fragments
use actor_network.Prelude.{
  Bool, List, Option, [], false, guard, if◌then◌else◌, leb, length, map, none, some, true, ℕ, ◌++◌,
  ◌+◌, ◌-◌, ◌==◌, ◌>>=◌, ◌>>◌, ◌∷◌,
}
use actor_network.Packet.Impl.{
  Fragment, Packet, add_len, allocate, allocate_if_needed, default_nr_frags, external, internal,
  internal_data_size, no_offload, nr_frags, push_back, push_front, u32, unuse_internal_data,
  using_internal_data,
}

-- Writing `n` bytes of a new external fragment.
abbrev pub outside : List ℕ → Fragment
outside bytes = record { base = external; bytes = bytes }

unfoldable pub empty : Option Packet
empty = allocate 1

unfoldable pub with_frags : ℕ → Option Packet
with_frags n = allocate n

-- `packet(fragment)` and `packet(const char*, size_t)`: copy, into `_data` if it fits.
unfoldable pub from_bytes : List ℕ → Packet
from_bytes bytes =
    let n = length bytes in
    if leb n internal_data_size
    then record {
      len = u32 n;
      allocated = default_nr_frags;
      offload = no_offload;
      rss_hash = none;
      headroom = internal_data_size - n;
      frags = record { base = internal (internal_data_size - n); bytes = bytes } ∷ [];
    }
    else record {
      len = u32 n;
      allocated = default_nr_frags;
      offload = no_offload;
      rss_hash = none;
      headroom = internal_data_size;
      frags = outside bytes ∷ [];
    }

-- `packet(fragment, deleter)`: one fragment, not copied.
pub from_fragment : List ℕ → Option Packet
from_fragment bytes = do
  p ← allocate 1
  q ← push_back (outside bytes) p
  some (record q { len = u32 (length bytes) })

-- The sum of the sizes, in the 32 bits of `_len`.
pub sum_len : ℕ → List (List ℕ) → ℕ
sum_len acc [] = acc
sum_len acc (bytes ∷ rest) = sum_len (u32 (acc + length bytes)) rest

-- `packet(std::vector<fragment>, deleter)`.
pub from_fragments : List (List ℕ) → Option Packet
unfolding sum_len
from_fragments bs = do
  p ← allocate (length bs)
  guard (leb (length bs) p.allocated)
  some (record p { frags = map outside bs; len = sum_len 0 bs })

-- `packet(packet&&, fragment)` and `packet(packet&&, fragment, deleter)`, which differ in who
-- frees the bytes.
pub append_fragment : Packet → List ℕ → Option Packet
append_fragment x bytes = do
  p ← allocate_if_needed x 1
  push_back (outside bytes) (add_len (length bytes) p)

-- `_frags[0].base -= size; _frags[0].size += size`, where `fill` is what these bytes then hold. The
-- pointer must stay within `_data`.
abbrev pub lower : List ℕ → List Fragment → Option (List Fragment)
lower fill [] = none
lower fill (f ∷ fs) = elim f.base [
  | external ↦ none
  | internal o ↦ do
    guard (leb (length fill) o)
    some (record { base = internal (o - length fill); bytes = fill ++ f.bytes } ∷ fs)
]

-- The part of `allocate_headroom` that makes the first fragment an internal one.
abbrev pub enter_data : Packet → Option Packet
enter_data p = if using_internal_data p then some p else (do
  q ← allocate_if_needed p 1
  push_front (record { base = internal internal_data_size; bytes = [] }) q)

unfoldable pub allocate_headroom : Packet → List ℕ → Option (Packet × Bool)
allocate_headroom p fill =
    let n = length fill in
    if leb n p.headroom
    then (do
      q ← enter_data (add_len n p)
      fs ← lower fill q.frags
      some (record q { headroom = q.headroom - n; frags = fs }, true))
    else some (p, false)

-- The fallback of both ways to prepend: a fragment of its own.
abbrev pub prepend_outside : List ℕ → Packet → Option Packet
prepend_outside bytes p = do
  q ← allocate_if_needed p 1
  push_front (outside bytes) (add_len (length bytes) q)

-- `packet(fragment, packet&&)`.
unfoldable pub prepend : List ℕ → Packet → Option Packet
prepend bytes x = do
  (p, done) ← allocate_headroom x bytes
  if done then some p else prepend_outside bytes (unuse_internal_data p)

abbrev second_attempt : List ℕ → Packet → Option Packet
second_attempt fill p = do
  (q, done) ← allocate_headroom (unuse_internal_data p) fill
  if done then some q else prepend_outside fill q

-- `prepend_uninitialized_header`: the internal buffer is tried again once it is free.
pub prepend_uninitialized_header : Packet → List ℕ → Option Packet
prepend_uninitialized_header x fill = do
  (p, done) ← allocate_headroom x fill
  if done then some p else second_attempt fill p

pub append : Packet → Packet → Option Packet
append x p = if x.len == 0 then some p else (do
  q ← allocate_if_needed x (nr_frags p)
  let p' = unuse_internal_data p
  guard (leb (nr_frags q + nr_frags p') q.allocated)
  some (record q { len = u32 (q.len + p'.len); frags = q.frags ++ p'.frags }))
