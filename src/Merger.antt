-- ===== src/Merger.antt =====
-- `packet_merger` of include/nil/actor/network/packet-util.hh, at the 32-bit offsets of IPv4 fragments.
-- An offset is a number, and a sum of the source's is that of numbers: the model is the code's as long
-- as every segment ends below 2 ^ 32. The ends of IPv4 fragments are kept below 2 ^ 16 by
-- `handle_received_packet`.
--
-- A packet is the bytes that it holds: on these `append` joins, `trim_front` drops and `linearize`
-- changes nothing, which the modules below Packet prove of them. The `std::map` is a list of segments
-- in the order of its keys.
pub mod Segments
pub mod Scan
pub mod Join
pub mod Laws
pub mod Within
mod Tests
use actor_network.Prelude.{
  List, Option, [], drop, if◌then◌else◌, leb, length, ltb, none, some, ℕ, ◌%◌, ◌&&◌, ◌++◌, ◌+◌, ◌-◌,
  ◌==◌, ◌>>=◌, ◌^◌, ◌∷◌,
}

pub record Segment : Type 0 where
  pub beg : ℕ
  pub bytes : List ℕ

abbrev pub seg_end : Segment → ℕ
seg_end s = s.beg + length s.bytes

pub record Merger : Type 0 where
  pub map : List Segment
  pub linearizations : ℕ

abbrev count_linearization : ℕ → ℕ
count_linearization n = (n + 1) % 2 ^ 64

-- How the first loop ends: the data is there already; the packet, grown perhaps, is to be inserted
-- into what is left of the map; or a segment of the map took it in.
pub data Scanned : Type 0 where
  covered : Scanned
  pending : List ℕ → List Segment → Scanned
  extended : List Segment → Scanned

abbrev pub keep : Segment → Scanned → Scanned
keep s covered = covered
keep s (pending p m) = pending p (s ∷ m)
keep s (extended m) = extended (s ∷ m)

-- The first loop, with the numbered cases of the source.
unfoldable pub scan : ℕ → List ℕ → List Segment → Scanned
scan beg p [] = pending p []
scan beg p (s ∷ m) =
    let end = beg + length p in
    let further = keep s (scan beg p m) in
    if leb s.beg beg && leb end (seg_end s)
    then covered
    else if leb beg s.beg && leb (seg_end s) end
    then pending p m
    else if ltb beg s.beg && leb s.beg end && leb end (seg_end s)
    then pending (p ++ drop (end - s.beg) s.bytes) m
    else if leb s.beg beg && leb beg (seg_end s) && ltb (seg_end s) end
    then extended (record s { bytes = s.bytes ++ drop (seg_end s - beg) p } ∷ m)
    else further

-- `map.emplace`: in key order, and without effect on a key that is there.
unfoldable pub emplace : Segment → List Segment → List Segment
emplace n [] = n ∷ []
emplace n (s ∷ m) =
    if ltb n.beg s.beg then n ∷ s ∷ m else if n.beg == s.beg then s ∷ m else s ∷ emplace n m

-- The second loop, at the segment `s`; `none` is its `abort`.
unfoldable pub join_from : Segment → List Segment → Option (List Segment)
join_from s [] = some (s ∷ [])
join_from s (n ∷ m) =
    let merged = join_from (record s { bytes = s.bytes ++ drop (seg_end s - n.beg) n.bytes }) m in
    let dropped = join_from s m in
    let apart = join_from n m >>= λ rest. some (s ∷ rest) in
    if leb s.beg n.beg && leb n.beg (seg_end s) && ltb (seg_end s) (seg_end n)
    then merged
    else if leb (seg_end n) (seg_end s)
    then dropped
    else if ltb (seg_end s) n.beg
    then apart
    else none

abbrev pub join : List Segment → Option (List Segment)
join [] = some []
join (s ∷ m) = join_from s m

abbrev pub finish : ℕ → Scanned → Merger → Option Merger
finish beg covered r = some r
finish beg (pending p m) r = do
  joined ← join (emplace (record { beg = beg; bytes = p }) m)
  some (record { map = joined; linearizations = count_linearization r.linearizations })
finish beg (extended m) r = do
  joined ← join m
  some (record { map = joined; linearizations = count_linearization r.linearizations })

unfoldable pub merge : ℕ → List ℕ → Merger → Option Merger
unfolding scan emplace join_from
merge offset p r = finish offset (scan offset p r.map) r
