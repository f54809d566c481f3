-- ===== src/Packet/Trim/Headroom.antt =====
-- `trim_back` credits the trimmed bytes to the headroom, though they lie behind the first fragment
-- and not below it.
use actor_network.Prelude.{
  List, [], arith, length, none, some, take, ℕ, ◌+◌, ◌-◌, ◌<◌, ◌>>=◌, ◌∷◌, ◌≡◌, ◌≤◌,
}
use actor_network.Packet.Build.{allocate_headroom, from_bytes, prepend}
use actor_network.Packet.Impl.{Packet, internal, internal_data_size}
use actor_network.Packet.Trim.{skip, trim_back}

trimmed : List ℕ → ℕ → Packet
trimmed bs n = record (from_bytes bs) {
  len = length bs - n;
  headroom = internal_data_size - length bs + n;
  frags =
      record { base = internal (internal_data_size - length bs); bytes = take (length bs - n) bs }
      ∷ [];
}

trim_back-from_bytes :
    (n : ℕ) (bs : List ℕ)
    → 0 < n
    → n < length bs
    → length bs ≤ internal_data_size
    → trim_back n (from_bytes bs) ≡ some (trimmed bs n)
unfolding trim_back skip from_bytes trimmed
trim_back-from_bytes n bs pos lt small = ground arith

-- When a packet was copied into the internal buffer and `n` of its bytes, though not all, were
-- trimmed off the back, then prepending a header that fits the headroom so counted, and not the
-- bytes below the packet, moves the first fragment below the start of the buffer.
pub trim_back-prepend_fault :
    (n : ℕ) (bs fill : List ℕ)
    → 0 < n
    → n < length bs
    → length bs ≤ internal_data_size
    → internal_data_size - length bs < length fill
    → length fill ≤ internal_data_size - length bs + n
    → (trim_back n (from_bytes bs) >>= prepend fill) ≡ none
trim_back-prepend_fault n bs fill pos lt small above within =
    rw (trim_back-from_bytes n bs pos lt small) (faults)
  where
    faults : prepend fill (trimmed bs n) ≡ none
    faults = unfold prepend allocate_headroom from_bytes trimmed in ground arith
