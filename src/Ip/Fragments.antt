-- ===== src/Ip/Fragments.antt =====
-- The fragments that wait for the rest of their datagram: `frag_limit_mem`, `frag_timeout`,
-- `frag_drop`, `frag_arm`, and `merge`, `is_complete` and `get_assembled_packet` of `ipv4::frag`, in
-- src/network/ip.cc and include/nil/actor/network/ip.hh. `none` is a failed assertion or a read out of
-- bounds.
pub mod Reassembly
pub mod Keys
pub mod Memory
pub mod Accounts
pub mod Updates
pub mod Limit
pub mod Timeout
pub mod Complete
pub mod Orders
pub mod Sent
use actor_network.Prelude.{
  Bool, List, Option, [], drop, false, guard, if◌then◌else◌, leb, length, ltb, map, min, none, not,
  some, take, ℕ, ◌%◌, ◌&&◌, ◌*◌, ◌++◌, ◌+◌, ◌-◌, ◌/◌, ◌==◌, ◌>>=◌, ◌>>◌, ◌^◌, ◌||◌, ◌∷◌,
}
use actor_network.Ip.{
  Frag, FragId, IpEnv, IpHdr, Ipv4, frag_high_thresh, frag_low_thresh, frag_timeout_span, mf_of,
  same_id,
}
use actor_network.Merger.{Segment, merge}
use actor_network.Packet.Impl.{size}
use actor_network.Tcp.Tcb.Reader.{joined}

-- A default-constructed `frag`.
abbrev pub fresh_frag : Frag
fresh_frag = record {
  header = [];
  ip_data = record { map = []; linearizations = 0 };
  rx_time = 0;
  mem_size = 0;
  last_frag_received = false;
}

-- `_frags[id]`: the entry, a fresh one if there is none.
unfoldable pub frag_of : List (FragId × Frag) → FragId → Frag
frag_of [] id = fresh_frag
frag_of ((k, f) ∷ m) id = if same_id k id then f else frag_of m id

unfoldable pub erase_frag : List (FragId × Frag) → FragId → List (FragId × Frag)
erase_frag [] id = []
erase_frag ((k, f) ∷ m) id =
    let rest = erase_frag m id in if same_id k id then rest else (k, f) ∷ rest

abbrev pub put_frag : FragId → Frag → List (FragId × Frag) → List (FragId × Frag)
put_frag id f m = (id, f) ∷ erase_frag m id

-- `_frags_age.remove(id)`.
unfoldable pub remove_id : FragId → List FragId → List FragId
remove_id id [] = []
remove_id id (k ∷ ks) = let rest = remove_id id ks in if same_id k id then rest else k ∷ rest

-- `a - b` of 32-bit numbers.
abbrev pub sub32 : ℕ → ℕ → ℕ
sub32 a b = (a + 2 ^ 32 - b) % 2 ^ 32

unfoldable pub frag_drop : FragId → ℕ → Ipv4 → Ipv4
unfolding erase_frag
frag_drop id dropped_size s = record s {
  frags = erase_frag s.frags id;
  frag_mem = sub32 s.frag_mem dropped_size;
}

-- One turn of either loop: the oldest id is taken off the list of ages, and its entry dropped.
abbrev pub drop_oldest : FragId → List FragId → Ipv4 → Ipv4
drop_oldest id younger s =
    frag_drop id (frag_of s.frags id).mem_size (record s { frags_age = younger })

-- The loop of `frag_limit_mem` at the list of ages, with `drop` bytes to go.
unfoldable pub limit_loop : List FragId → ℕ → Ipv4 → Ipv4
unfolding frag_drop frag_of
limit_loop [] bytes s = s
limit_loop (id ∷ younger) bytes s =
    let size = (frag_of s.frags id).mem_size in
    let further = limit_loop younger (bytes - min bytes size) (drop_oldest id younger s) in
    if bytes == 0 then s else further

unfoldable pub frag_limit_mem : Ipv4 → Ipv4
unfolding limit_loop
frag_limit_mem s =
    if leb s.frag_mem frag_high_thresh
    then s
    else limit_loop s.frags_age (s.frag_mem - frag_low_thresh) s

unfoldable pub frag_arm : ℕ → Ipv4 → Ipv4
frag_arm now s = record s { frag_timer = some (now + frag_timeout_span) }

-- The loop of `frag_timeout` at the list of ages. Looking an entry up makes one.
unfoldable pub timeout_loop : ℕ → List FragId → Ipv4 → Ipv4
unfolding frag_drop frag_of
timeout_loop now [] s = s
timeout_loop now (id ∷ younger) s =
    let frag = frag_of s.frags id in
    let further = timeout_loop now younger (drop_oldest id younger s) in
    if ltb (frag.rx_time + frag_timeout_span) now
    then further
    else record s { frags = put_frag id frag s.frags }

-- The end of `frag_timeout`, where the table is the list.
abbrev pub rearm : List (FragId × Frag) → ℕ → Ipv4 → Ipv4
rearm [] now s = record s { frag_mem = 0 }
rearm (_ ∷ m) now s = frag_arm now s

abbrev pub sweep : List (FragId × Frag) → ℕ → Ipv4 → Ipv4
sweep [] now s = s
sweep (_ ∷ m) now s = let swept = timeout_loop now s.frags_age s in rearm swept.frags now swept

-- `frag_timeout`, which runs when the timer has gone off.
unfoldable pub frag_timeout : ℕ → Ipv4 → Ipv4
unfolding timeout_loop frag_arm
frag_timeout now s = sweep s.frags now (record s { frag_timer = none })

-- The entry of a fragment before it is merged: the flag of the last one is set, and a new entry
-- gets its time.
abbrev pub opened_frag : IpHdr → ℕ → Frag → Frag
opened_frag h now f = record f {
  last_frag_received = not (mf_of h) || f.last_frag_received;
  rx_time = if f.mem_size == 0 then now else f.rx_time;
}

abbrev pub aged : FragId → Frag → List FragId → List FragId
aged id f ids = if f.mem_size == 0 then ids ++ (id ∷ []) else ids

-- `if (!_frag_timer.armed()) frag_arm();`, where the timer is the option.
abbrev pub arm_if_idle : Option ℕ → ℕ → Ipv4 → Ipv4
arm_if_idle none now s = frag_arm now s
arm_if_idle (some t) now s = s

-- `memory()` of the packets of a merger, added up.
unfoldable pub data_memory : ℕ → List Segment → ℕ
data_memory impl_size [] = 0
data_memory impl_size (g ∷ m) = length g.bytes + impl_size + data_memory impl_size m

-- The header that is stored: that of the packet at the offset 0.
abbrev pub stored_header : IpHdr → ℕ → List ℕ → Frag → Option (List ℕ)
stored_header h offset p f =
    if offset == 0
    then guard (leb (h.ihl * 4) (length p)) >> some (take (h.ihl * 4) p)
    else some f.header

-- `frag::merge`: the new state, and the size by which it has grown, as the 32-bit number that the
-- caller adds.
unfoldable pub frag_merge : ℕ → IpHdr → ℕ → List ℕ → Frag → Option (Frag × ℕ)
unfolding merge data_memory
frag_merge impl_size h offset p f = do
  header ← stored_header h offset p f
  guard (leb (h.ihl * 4) (length p))
  joined ← merge offset (drop (h.ihl * 4) p) f.ip_data
  let mem_size = (length header + impl_size + data_memory impl_size joined.map) % 2 ^ 32 in
      some (
        record f { header = header; ip_data = joined; mem_size = mem_size },
        sub32 mem_size f.mem_size,
      )

-- One segment is left, at the offset 0, and the last fragment is in.
abbrev pub whole : List Segment → Bool
whole [] = false
whole (g ∷ []) = g.beg == 0
whole (g ∷ _ ∷ _) = false

unfoldable pub is_complete : Frag → Bool
is_complete f = f.last_frag_received && whole f.ip_data.map

-- `data.map.begin()->second`.
abbrev pub first_packet : List Segment → List ℕ
first_packet [] = []
first_packet (g ∷ m) = g.bytes

-- The bytes of an Ethernet address.
abbrev pub mac_bytes : ℕ → List ℕ
mac_bytes n =
    n / 2 ^ 40 % 2 ^ 8
    ∷ n / 2 ^ 32 % 2 ^ 8
    ∷ n / 2 ^ 24 % 2 ^ 8
    ∷ n / 2 ^ 16 % 2 ^ 8
    ∷ n / 2 ^ 8 % 2 ^ 8
    ∷ n % 2 ^ 8
    ∷ []

module _ (env : IpEnv) where
  open env.be use {write16}

  -- `iph->len = ...; iph->frag = 0`, in the bytes from the header on, which have to be 20 at least.
  abbrev pub patched : List ℕ → Option (List ℕ)
  patched p =
      let (l0, l1) = write16 (length p % 2 ^ 16) in
      guard (leb 20 (length p))
      >> some (take 2 p ++ (l0 ∷ l1 ∷ take 2 (drop 4 p)) ++ (0 ∷ 0 ∷ drop 8 p))

  -- `get_assembled_packet`: the Ethernet header, and the datagram in one piece.
  unfoldable pub get_assembled_packet : ℕ → ℕ → Frag → Option (List ℕ)
  get_assembled_packet source target f =
      patched (f.header ++ first_packet f.ip_data.map) >>= λ datagram. some (
        mac_bytes target
        ++ (mac_bytes source ++ ((let (e0, e1) = write16 0x800 in e0 ∷ e1 ∷ []) ++ datagram)))
