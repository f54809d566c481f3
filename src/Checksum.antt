-- ===== src/Checksum.antt =====
-- `checksummer` of include/nil/actor/network/ip_checksum.hh and src/network/ip_checksum.cc, with
-- the conversions of include/nil/actor/network/byteorder.hh on a little-endian machine. `x & (2^k - 1)`
-- and `x >> k` are written as arithmetic. `csum` is 128 bits wide, and sums of bytes do not come near
-- its limit.
pub mod Sum
pub mod Fold
pub mod Bounds
mod Tests
use actor_network.Prelude.{
  Bool, List, Option, [], false, if◌then◌else◌, length, none, not, some, true, ℕ, ◌%◌, ◌*◌, ◌+◌,
  ◌-◌, ◌/◌, ◌==◌, ◌>>=◌, ◌^◌, ◌∷◌,
}

pub record Checksummer : Type 0 where
  pub csum : ℕ
  pub odd : Bool

abbrev pub fresh : Checksummer
fresh = record { csum = 0; odd = false }

abbrev plus : ℕ → Checksummer → Checksummer
plus n c = record c { csum = c.csum + n }

-- `ntoh` of the 64 bits at the front of the bytes.
abbrev pub word64 : ℕ → ℕ → ℕ → ℕ → ℕ → ℕ → ℕ → ℕ → ℕ
word64 a b c d e f g h =
    a * 2 ^ 56 + b * 2 ^ 48 + c * 2 ^ 40 + d * 2 ^ 32 + e * 2 ^ 24 + f * 2 ^ 16 + g * 2 ^ 8 + h

-- The loop over 16-bit words, and the byte behind them.
pub sum_words : List ℕ → ℕ → ℕ
sum_words [] acc = acc
sum_words (a ∷ []) acc = acc + a * 2 ^ 8
sum_words (a ∷ b ∷ rest) acc = sum_words rest (acc + (a * 2 ^ 8 + b))

-- The loop over 64-bit words, and those behind it.
pub sum_even : List ℕ → ℕ → ℕ
unfolding sum_words
sum_even (a ∷ b ∷ c ∷ d ∷ e ∷ f ∷ g ∷ h ∷ rest) acc = sum_even rest (acc + word64 a b c d e f g h)
sum_even rest acc = sum_words rest acc

abbrev pub flips : List ℕ → Bool
flips bytes = length bytes % 2 == 1

abbrev pub xor : Bool → Bool → Bool
xor true b = not b
xor false b = b

-- `sum(data, len)` in each state. In the odd state it reads `*data` and takes one off `len` whether or
-- not there is a byte: `none` is that read past the data.
abbrev sum_at : Bool → List ℕ → ℕ → Option ℕ
sum_at true [] acc = none
sum_at true (b ∷ rest) acc = some (sum_even rest (acc + b))
sum_at false bytes acc = some (sum_even bytes acc)

unfoldable pub sum : List ℕ → Checksummer → Option Checksummer
unfolding sum_even
sum bytes c = do
  acc ← sum_at c.odd bytes c.csum
  some (record { csum = acc; odd = xor c.odd (flips bytes) })

-- `sum(packet)`: every fragment in turn.
pub sum_packet : List (List ℕ) → Checksummer → Option Checksummer
unfolding sum
sum_packet [] c = some c
sum_packet (f ∷ fs) c = sum f c >>= sum_packet fs

pub sum8 : ℕ → Checksummer → Checksummer
sum8 x c = record { csum = c.csum + (if c.odd then x else x * 2 ^ 8); odd = not c.odd }

pub sum16 : ℕ → Checksummer → Checksummer
unfolding sum8
sum16 x c = if c.odd then sum8 (x % 2 ^ 8) (sum8 (x / 2 ^ 8 % 2 ^ 8) c) else plus x c

pub sum32 : ℕ → Checksummer → Checksummer
unfolding sum16
sum32 x c = if c.odd then sum16 (x / 2 ^ 16 % 2 ^ 16) (sum16 (x % 2 ^ 16) c) else plus x c

-- The carries folded in, down to 16 bits.
pub folded : Checksummer → ℕ
folded c =
    let csum1 = c.csum % 2 ^ 64 + c.csum / 2 ^ 64 in
    let w = (csum1 % 2 ^ 64 + csum1 / 2 ^ 64) % 2 ^ 64 in
    let x = w % 2 ^ 16 + w / 2 ^ 16 % 2 ^ 16 + w / 2 ^ 32 % 2 ^ 16 + w / 2 ^ 48 in
    let y = x % 2 ^ 16 + x / 2 ^ 16 in y % 2 ^ 16 + y / 2 ^ 16

-- `ntohq` and `htonq`: the eight bytes in the other order.
pub htonq : ℕ → ℕ
htonq v =
    word64 (v % 2 ^ 8) (v / 2 ^ 8 % 2 ^ 8) (v / 2 ^ 16 % 2 ^ 8) (v / 2 ^ 24 % 2 ^ 8)
      (v / 2 ^ 32 % 2 ^ 8) (v / 2 ^ 40 % 2 ^ 8) (v / 2 ^ 48 % 2 ^ 8) (v / 2 ^ 56 % 2 ^ 8)

-- `get`. The operand of `hton` is a `uint64_t`, so this is the 64-bit swap, cut to 16 bits by the
-- return.
unfoldable pub get : Checksummer → ℕ
unfolding folded htonq
get c = htonq (2 ^ 64 - 1 - folded c) % 2 ^ 16

pub ip_checksum : List ℕ → Option ℕ
unfolding sum get
ip_checksum bytes = sum bytes fresh >>= λ c. some (get c)
