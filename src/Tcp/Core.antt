-- ===== src/Tcp/Core.antt =====
-- What the TCP code takes from the core library, which is not in this repository: `align_up` of
-- nil/actor/core/align.hh, and `read_be` and `write_be` of nil/actor/core/byteorder.hh.
use actor_network.Prelude.{ℕ, ◌%◌, ◌+◌, ◌<◌, ◌^◌, ◌≡◌, ◌≤◌}

-- `align_up(v, a)` at the alignment 4: the least multiple of 4 not below `v`.
pub record Align : Type 0 where
  pub align_up : ℕ → ℕ
  pub align_up_multiple : (v : ℕ) → align_up v % 4 ≡ 0
  pub align_up_bounds : (v : ℕ) → (v ≤ align_up v) × (align_up v < v + 4)

-- The bytes of big-endian words: reading gives back what was written, and the other way round.
pub record BigEndian : Type 0 where
  pub write16 : ℕ → ℕ × ℕ
  pub read16 : ℕ × ℕ → ℕ
  pub write32 : ℕ → ℕ × ℕ × ℕ × ℕ
  pub read32 : ℕ × ℕ × ℕ × ℕ → ℕ
  pub read-write16 : (n : ℕ) → n < 2 ^ 16 → read16 (write16 n) ≡ n
  pub read-write32 : (n : ℕ) → n < 2 ^ 32 → read32 (write32 n) ≡ n
