-- ===== src/Tcp/Option.antt =====
-- `tcp_option` of include/nil/actor/network/tcp.hh with `parse`, `fill` and `get_size` of
-- src/network/tcp.cc.
pub mod Parse
pub mod RoundTrip
use actor_network.Prelude.{
  Bool, List, Option, [], drop, false, get_elem?, if◌then◌else◌, length, ltb, none, not, replicate,
  some, suc, true, u8, zero, ℕ, ◌&&◌, ◌++◌, ◌+◌, ◌-◌, ◌==◌, ◌||◌, ◌∷◌,
}
use actor_network.Packet.Impl.{size}
use actor_network.Tcp.Core.{Align, BigEndian}

pub record TcpOption : Type 0 where
  pub mss_received : Bool
  pub win_scale_received : Bool
  pub timestamps_received : Bool
  pub sack_received : Bool
  pub remote_mss : ℕ
  pub local_mss : ℕ
  pub remote_win_scale : ℕ
  pub local_win_scale : ℕ

-- `option_kind`.
pub data OptionKind : Type 0 where
  eol nop mss win_scale sack timestamps : OptionKind
  unknown : ℕ → OptionKind

pub kind_of : ℕ → OptionKind
kind_of b =
    if b == 0
    then eol
    else if b == 1
    then nop
    else if b == 2
    then mss
    else if b == 3
    then win_scale
    else if b == 4
    then sack
    else if b == 8
    then timestamps
    else unknown b

abbrev is_single : OptionKind → Bool
is_single eol = true
is_single nop = true
is_single _ = false

-- How `parse` ends: with the options, by a read at or past `end`, or short of fuel.
pub data Parsed : Type 0 where
  parsed : TcpOption → Parsed
  overread unfinished : Parsed

abbrev at : List ℕ → ℕ → (ℕ → Parsed) → Parsed
at bytes i k = elim (get_elem? bytes i) [ none ↦ overread | some b ↦ k b ]

-- A length that is read must end within the bytes.
abbrev with_room : OptionKind → List ℕ → TcpOption → Parsed → Parsed
with_room kind bytes o rest =
    if is_single kind
    then rest
    else at bytes 1 (λ len. if ltb (length bytes) len then parsed o else rest)

module _ (be : BigEndian) where
  open be use {read16, write16}

  -- One round of the loop; `loop` is the rest of the loop at the bytes behind this option.
  abbrev case_of : OptionKind → List ℕ → TcpOption → (ℕ → TcpOption → Parsed) → Parsed
  case_of mss bytes o loop =
      at bytes 2 λ hi.
        at bytes 3 λ lo. loop 4 (record o { mss_received = true; remote_mss = read16 (hi, lo) })
  case_of win_scale bytes o loop = at bytes 2 λ shift.
      loop 3 (record o { win_scale_received = true; remote_win_scale = shift; local_win_scale = 7 })
  case_of sack bytes o loop = loop 2 (record o { sack_received = true })
  case_of nop bytes o loop = loop 1 o
  case_of eol bytes o loop = parsed o
  case_of _ bytes o loop = at bytes 1 λ len. if len == 0 then parsed o else loop len o

  -- `parse`, on the bytes between `beg` and `end`.
  unfoldable pub parse_loop : ℕ → List ℕ → TcpOption → Parsed
  unfolding kind_of
  parse_loop fuel [] o = parsed o
  parse_loop zero (b ∷ bytes) o = unfinished
  parse_loop (suc fuel) (b ∷ bytes) o =
      with_room (kind_of b) (b ∷ bytes) o
        (case_of (kind_of b) (b ∷ bytes) o λ n o'. parse_loop fuel (drop n (b ∷ bytes)) o')

  unfoldable pub parse : List ℕ → TcpOption → Parsed
  unfolding parse_loop
  parse bytes o = parse_loop (length bytes) bytes o

  abbrev mss_bytes : ℕ → List ℕ
  mss_bytes n = let w = write16 n in 2 ∷ 4 ∷ w.0 ∷ w.1 ∷ []

  abbrev win_scale_bytes : ℕ → List ℕ
  win_scale_bytes shift = 3 ∷ 3 ∷ shift ∷ []

  module _ (core : Align) where
    open core use {align_up}

    abbrev sends_mss : TcpOption → Bool → Bool → Bool
    sends_mss o syn_on ack_on = syn_on && (o.mss_received || not ack_on)

    abbrev sends_win_scale : TcpOption → Bool → Bool → Bool
    sends_win_scale o syn_on ack_on = syn_on && (o.win_scale_received || not ack_on)

    -- The options before padding.
    abbrev wanted : TcpOption → Bool → Bool → List ℕ
    wanted o syn_on ack_on =
        (if sends_mss o syn_on ack_on then mss_bytes o.local_mss else [])
        ++ (if sends_win_scale o syn_on ack_on then win_scale_bytes o.local_win_scale else [])

    -- NOPs up to the last byte of the aligned size, and EOL there.
    abbrev padded : List ℕ → List ℕ
    padded bytes =
        if ltb 0 (length bytes)
        then bytes ++ (replicate (align_up (u8 (length bytes + 1)) - 1 - length bytes) 1 ++ 0 ∷ [])
        else bytes

    -- `fill`: the bytes written behind the header; `none` is the failed assertion on their number.
    unfoldable pub fill : TcpOption → Bool → Bool → ℕ → Option (List ℕ)
    fill o syn_on ack_on options_size =
        let bytes = padded (wanted o syn_on ack_on) in
        if length bytes == options_size then some bytes else none

    unfoldable pub get_size : TcpOption → Bool → Bool → ℕ
    get_size o syn_on ack_on =
        let m : ℕ = if sends_mss o syn_on ack_on then 4 else 0 in
        let size = if sends_win_scale o syn_on ack_on then m + 3 else m in
        if ltb 0 size then u8 (align_up (size + 1)) else size
